-- ===== src/SigIo/Tests.antt =====
-- Input comes while the process sleeps; it is read, and more comes.
use linuxapi.Base.{refl, false, true, [], ◌∷◌, arith}
use linuxapi.SigIo.{Place, Runs, System, input, runs, armed, Reach, start, later}
use linuxapi.SigIo.Edge.{Noticed, Reach-Noticed}

-- The second input waits, with the flag set.
abbrev told : System
told = record {
  terminal = record {
    unread = 66 ∷ [];
    got_sig_io = true;
    buf = 65 ∷ 0 ∷ 0 ∷ 0 ∷ 0 ∷ [];
    out = (65 ∷ []) ∷ [];
    cut_short = false;
  };
  place = Place.nap;
}

told-Reach : Reach (armed (0 ∷ 0 ∷ 0 ∷ 0 ∷ 0 ∷ [])) told
told-Reach =
    later
      (later
        (later
          (later (later (later start (input 65 [])) (runs Runs.sleeps)) (runs (Runs.signaled refl)))
          (runs (Runs.prints 65 [] [] refl (omega arith) refl)))
        (runs (Runs.empty refl)))
      (input 66 [])

Reach-Noticed_example : Noticed told.terminal told.place
Reach-Noticed_example = Reach-Noticed told-Reach
