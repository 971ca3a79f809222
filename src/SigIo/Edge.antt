-- ===== src/SigIo/Edge.antt =====
-- When the program notices input.
use linuxapi.Base.{ℕ, ◌≡◌, ◌⊎◌, inl, inr, refl, true, List, [], ◌∷◌, ◌++◌, if◌then◌else◌}
use linuxapi.SigIo.{
  Terminal, Place, is_armed, Runs, System, input, runs, armed, Reach, start, later,
}

-- Outside the reading loop, unread input means that the flag is set, or that the loop was left early.
abbrev pub Noticed : Terminal → Place → Type 0
Noticed m Place.nap = (m.unread ≡ []) ⊎ (m.got_sig_io ≡ true) ⊎ (m.cut_short ≡ true)
Noticed m Place.test = (m.unread ≡ []) ⊎ (m.got_sig_io ≡ true) ⊎ (m.cut_short ≡ true)
Noticed m Place.drain = Unit {0}
Noticed m p = ⊥

Runs-Noticed : {m m' : Terminal} {p p' : Place} → Runs m p m' p' → Noticed m p → Noticed m' p'
Runs-Noticed Runs.installs h = absurd h
Runs-Noticed Runs.owns h = absurd h
Runs-Noticed Runs.sets_flags h = absurd h
Runs-Noticed Runs.install_fails h = absurd h
Runs-Noticed Runs.own_fails h = absurd h
Runs-Noticed Runs.flags_fail h = absurd h
Runs-Noticed Runs.sleeps h = h
Runs-Noticed (Runs.none e) h = h
Runs-Noticed (Runs.signaled e) h = tt
Runs-Noticed (Runs.prints c cs rest e le other) h = tt
Runs-Noticed (Runs.newline c cs rest e le nl) h = inr (inr refl)
Runs-Noticed (Runs.empty e) h = inl e
Runs-Noticed Runs.read_fails h = inr (inr refl)

input-Noticed :
    (m : Terminal) (p : Place) (bytes : List ℕ)
    → Noticed m p
    → Noticed
        (record m {
          unread = m.unread ++ bytes;
          got_sig_io = if is_armed p then true else m.got_sig_io;
        })
        p
input-Noticed m Place.nap bytes h = inr (inl refl)
input-Noticed m Place.test bytes h = inr (inl refl)
input-Noticed m Place.drain bytes h = tt
input-Noticed m Place.install bytes h = absurd h
input-Noticed m Place.own bytes h = absurd h
input-Noticed m Place.flags bytes h = absurd h
input-Noticed m Place.died bytes h = absurd h

-- In every state that is reachable once `alt_io_signal` is set up, wherever the process sleeps or
-- tests its flag, all input has been read, or the flag is set; unless the reading loop has once been
-- left early, at a newline or by an error.
pub Reach-Noticed :
    {stale : List ℕ} {s : System} → Reach (armed stale) s → Noticed s.terminal s.place
Reach-Noticed start = inl refl
Reach-Noticed (later {s = s} r (input c cs)) =
    input-Noticed s.terminal s.place (c ∷ cs) (Reach-Noticed r)
Reach-Noticed (later r (runs m)) = Runs-Noticed m (Reach-Noticed r)
