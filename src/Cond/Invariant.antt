-- ===== src/Cond/Invariant.antt =====
-- What the three threads keep to.
use linuxapi.Base.{ℕ, ◌+◌, ◌≤◌, ◌<◌, ◌≡◌, ◌⊎◌, inl, inr, sym, ap, ◌∙◌, true, arith}
use linuxapi.Cond.{Shared, Producer, Main, System}
use linuxapi.Cond.Views.{holds, main_holds, flag, made, InRange, Fresh, pending, running, created}

-- What the main thread knows of the producers.
abbrev pub Known : Producer → Producer → Main → Type 0
Known p1 p2 Main.create1 = (p1 ≡ Producer.absent) × (p2 ≡ Producer.absent)
Known p1 p2 Main.create2 = (created p1 ≡ true) × (p2 ≡ Producer.absent)
Known p1 p2 mn = (created p1 ≡ true) × (created p2 ≡ true)

-- What it knows of `work`. While it sleeps and there is work, a signal is on its way.
abbrev pub Local : (work pend : ℕ) → Main → Type 0
Local work pend Main.wait = work ≡ 0
Local work pend Main.load = 0 < work
Local work pend (Main.store x) = (x ≡ work) × (0 < work)
Local work pend Main.asleep = 0 < work → 1 ≤ pend
Local work pend mn = Unit

-- A work that is off the count and not reported yet.
abbrev pub owed : Main → ℕ
owed Main.report = 1
owed mn = 0

pub record Inv (s : System) : Type 0 where
  pub one_holder : holds s.p1 + holds s.p2 + main_holds s.main ≡ flag s.mem.locked
  pub total : s.mem.work + (s.mem.consumed + owed s.main) ≡ made s.p1 + made s.p2
  pub range1 : InRange s.p1
  pub range2 : InRange s.p2
  pub fresh1 : Fresh s.mem s.p1
  pub fresh2 : Fresh s.mem s.p2
  pub known : Known s.p1 s.p2 s.main
  pub local : Local s.mem.work (pending s.p1 + pending s.p2) s.main

pub Known-step1 :
    (p1 p1' p2 : Producer) (mn : Main)
    → running p1 ≡ true
    → created p1' ≡ true
    → Known p1 p2 mn
    → Known p1' p2 mn
Known-step1 p1 p1' p2 Main.create1 go new k = absurd (cc (sym go ∙ ap running k.0))
Known-step1 p1 p1' p2 Main.create2 go new k = (new, k.1)
Known-step1 p1 p1' p2 mn go new k = (new, k.1)

pub Known-step2 :
    (p1 p2 p2' : Producer) (mn : Main)
    → running p2 ≡ true
    → created p2' ≡ true
    → Known p1 p2 mn
    → Known p1 p2' mn
Known-step2 p1 p2 p2' Main.create1 go new k = absurd (cc (sym go ∙ ap running k.1))
Known-step2 p1 p2 p2' Main.create2 go new k = absurd (cc (sym go ∙ ap running k.1))
Known-step2 p1 p2 p2' mn go new k = (k.0, new)

-- A step of a producer keeps what the main thread knows of `work`.
pub Local-step :
    (w w' a a' : ℕ) (mn : Main)
    → a ≤ a'
    → ((w' ≡ w) ⊎ ((1 ≤ a') × (main_holds mn ≡ 0)))
    → Local w a mn
    → Local w' a' mn
Local-step w w' a a' Main.wait le change l = ground arith
Local-step w w' a a' Main.load le change l = ground arith
Local-step w w' a a' (Main.store x) le change l = ground arith
Local-step w w' a a' Main.asleep le change l = ground arith
Local-step w w' a a' mn le change l = tt

-- Another thread keeps what it has loaded.
pub Fresh-step :
    (m m' : Shared) (u : Producer) → ((m'.work ≡ m.work) ⊎ (holds u ≡ 0)) → Fresh m u → Fresh m' u
Fresh-step m m' (Producer.store i x) (inl same) h = h ∙ sym same
Fresh-step m m' (Producer.store i x) (inr free) h = absurd (omega (arith, free))
Fresh-step m m' u change h = tt
