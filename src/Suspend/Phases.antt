-- ===== src/Suspend/Phases.antt =====
-- What holds at each place of signal_suspend, and that the program's own steps keep it.
use linuxapi.Base.{
  ℕ, zero, suc, ◌≡◌, inl, inr, refl, ap, Bool, true, false, List, [], ◌∷◌, Bool-cases,
}
use linuxapi.Suspend.{
  sigint, sigquit, Signals, none_of, both, add, Place, System, signal_suspend, is_over, is_waiting,
}

abbrev pub down : ℕ → List ℕ
down zero = []
down (suc n) = n ∷ down n

abbrev pub lines_at : Place → ℕ → List ℕ
lines_at Place.count n = down (suc n)
lines_at p n = down n

abbrev pub Masks : Signals → Place → System → Type 0
Masks m Place.block s = (s.mask ≡ m) × (s.sent ≡ false)
Masks m Place.waiting s = (s.mask ≡ m) × (s.originmask ≡ m) × (s.saved ≡ both)
Masks m Place.woken s = (s.mask ≡ m) × (s.originmask ≡ m) × (s.saved ≡ both)
Masks m Place.returned s = s.mask ≡ m
Masks m Place.failed s = Unit
Masks m Place.killed s = s.sent ≡ false
Masks m p s = (s.mask ≡ both) × (s.originmask ≡ m)

abbrev pub Flag : Place → Bool → Type 0
Flag Place.test b = Unit
Flag Place.woken b = Unit
Flag Place.failed b = Unit
Flag Place.restore b = b ≡ true
Flag Place.returned b = b ≡ true
Flag p b = b ≡ false

abbrev pub Catches : Place → Signals → Type 0
Catches Place.block c = c ≡ none_of
Catches Place.catch_int c = c ≡ none_of
Catches Place.catch_quit c = c ≡ add sigint none_of
Catches Place.returned c = Unit
Catches Place.failed c = Unit
Catches Place.killed c = Unit
Catches p c = c ≡ both

pub record Keeps (m : Signals) (p : Place) (s : System) : Type 0 where
  pub masks : Masks m p s
  pub flag : Flag p s.sigquit_flag
  pub catches : Catches p s.caught
  pub lines : s.said ≡ lines_at p s.loop

tested-Keeps :
    {m : Signals} (s : System)
    → Keeps m Place.test s
    → Keeps m (signal_suspend Place.test s).place (signal_suspend Place.test s)
unfolding signal_suspend
tested-Keeps s k = elim (Bool-cases s.sigquit_flag) [
  | inl set ↦
      rw (set) (record { masks = k.masks; flag = refl; catches = k.catches; lines = k.lines })
  | inr clear ↦
      rw (clear) (record { masks = k.masks; flag = refl; catches = k.catches; lines = k.lines })
]

pub runs-Keeps :
    {m : Signals} (p : Place) (s : System)
    → is_waiting p ≡ false
    → is_over p ≡ false
    → Keeps m p s
    → Keeps m (signal_suspend p s).place (signal_suspend p s)
unfolding signal_suspend
runs-Keeps Place.block s w o k = record {
  masks = (refl, k.masks.0);
  flag = k.flag;
  catches = k.catches;
  lines = k.lines;
}
runs-Keeps Place.catch_int s w o k = record {
  masks = k.masks;
  flag = k.flag;
  catches = ap (add sigint) k.catches;
  lines = k.lines;
}
runs-Keeps Place.catch_quit s w o k = record {
  masks = k.masks;
  flag = tt;
  catches = ap (add sigquit) k.catches;
  lines = k.lines;
}
runs-Keeps Place.test s w o k = tested-Keeps s k
runs-Keeps Place.critical s w o k = record {
  masks = k.masks;
  flag = k.flag;
  catches = k.catches;
  lines = ap (λ l. s.loop ∷ l) k.lines;
}
runs-Keeps Place.count s w o k = record {
  masks = k.masks;
  flag = k.flag;
  catches = k.catches;
  lines = k.lines;
}
runs-Keeps Place.suspend s w o k = record {
  masks = (k.masks.1, k.masks.1, k.masks.0);
  flag = k.flag;
  catches = k.catches;
  lines = k.lines;
}
runs-Keeps Place.waiting s w o k = absurd cc
runs-Keeps Place.woken s w o k = record {
  masks = (k.masks.2, k.masks.1);
  flag = tt;
  catches = k.catches;
  lines = k.lines;
}
runs-Keeps Place.restore s w o k = record {
  masks = k.masks.1;
  flag = k.flag;
  catches = tt;
  lines = k.lines;
}
runs-Keeps Place.returned s w o k = absurd cc
runs-Keeps Place.failed s w o k = absurd cc
runs-Keeps Place.killed s w o k = absurd cc
