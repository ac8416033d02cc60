-- ===== src/Hardware/Tests.antt =====
-- Files of which only the latest has its flags kept, and the theorems on src/pcm_hw.c and
-- src/mixer_hw.c at them.
use tinyalsa.Base.{
  ℕ, ◌+◌, ◌≡◌, refl, arith, Bool, true, false, Option, some, List, [], ◌∷◌, length, if◌then◌else◌,
  ℤ, pos, ap,
}
use tinyalsa.Pcm.Flags.{pcm_nonblock}
use tinyalsa.Hardware.{Files, KeepsFiles, is_nonblocking}
use tinyalsa.Hardware.Stream.{pcm_hw_open, OpensOne, pcm_hw_open-OpensOne}
use tinyalsa.Hardware.Control.{mixer_hw_open, OpensOrLeaks, mixer_hw_open-OpensOrLeaks}

abbrev Table : Type 0
Table = List ℤ × ℕ

abbrev rest : List ℤ → List ℤ
rest [] = []
rest (fd ∷ fds) = fds

abbrev files : Files Table
files = record {
  open_file = λ path nonblock f.
      let fd = pos (3 + length f.0) in (fd, (fd ∷ f.0, if nonblock then 0x802 else 2));
  get_flags = λ fd f. (pos f.1, f);
  set_flags = λ fd flags f. (pos 0, (f.0, flags));
  close = λ fd f. (rest f.0, f.1);
}

mode_of : (nonblock : Bool) → is_nonblocking (if nonblock then 0x802 else 2) ≡ nonblock
mode_of true = refl
mode_of false = refl

files-KeepsFiles : KeepsFiles files
files-KeepsFiles = record {
  descriptors = λ f. f.0;
  status = λ fd f. f.1;
  open_fails = λ path nonblock f bad. absurd (ground (arith, bad));
  open_adds = λ path nonblock f good. (refl, mode_of nonblock);
  get_keeps = λ fd f. refl;
  set_keeps = λ fd flags f. refl;
  set_sets = λ fd flags f good. refl;
  close_removes = λ fd fds f e. ap rest e;
}

abbrev no_files : Table
no_files = ([], 0)

abbrev a_node : Option ℕ
a_node = some 7

-- A device for playback of the second card, opened without blocking.
pcm_hw_open-OpensOne_example :
    OpensOne files files-KeepsFiles pcm_nonblock no_files 1 0 a_node
      (pcm_hw_open files true 1 0 pcm_nonblock a_node no_files)
pcm_hw_open-OpensOne_example =
    pcm_hw_open-OpensOne files files-KeepsFiles pcm_nonblock no_files true 1 0 a_node

-- Without memory.
mixer_hw_open-OpensOrLeaks_example :
    OpensOrLeaks files files-KeepsFiles no_files false 1 (mixer_hw_open files false 1 no_files)
mixer_hw_open-OpensOrLeaks_example =
    mixer_hw_open-OpensOrLeaks files files-KeepsFiles no_files false 1
