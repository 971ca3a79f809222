-- ===== src/Sync/Masked.antt =====
-- Where the parent's mask lets the signal through, and when it is pending.
use linuxapi.Base.{List, [], ◌∷◌, ◌≡◌, ◌≢◌, refl, sym, ap, ◌∙◌, Bool, true, false, ◌||◌}
use linuxapi.Sync.{
  Line, child_job, parent_job, signaled, World, Parent, Child, System, is_over, behind_handler,
  mask_behind, ParentMoves, ChildMoves, parent_moves, child_moves, Step, moves, dies, begin, Reach,
  start, later,
}

abbrev pub told : Child → Bool
told Child.ended = true
told c = false

abbrev pub worked : Child → Bool
worked Child.absent = false
worked Child.job = false
worked c = true

abbrev pub is_job : Line → Bool
is_job child_job = true
is_job l = false

abbrev pub shows_child_job : List Line → Bool
shows_child_job [] = false
shows_child_job (l ∷ ls) = is_job l || shows_child_job ls

-- Every line of the parent's job stands above, that is behind, one of the child's.
abbrev pub Ordered : List Line → Type 0
Ordered [] = Unit
Ordered (parent_job ∷ ls) = (shows_child_job ls ≡ true) × Ordered ls
Ordered (l ∷ ls) = Ordered ls

-- What the mask and the handler are at each place of the parent.
abbrev pub Masks : Parent → World → Type 0
Masks Parent.block w = Unit
Masks Parent.install w = w.masked ≡ true
Masks Parent.waiting w = (w.masked ≡ false) × (w.saved ≡ true) × (w.caught ≡ true)
Masks Parent.finished w = Unit
Masks Parent.died w = Unit
Masks Parent.killed w = ⊥
Masks Parent.job w = w.masked ≡ true
Masks Parent.restore w = w.masked ≡ true
Masks p w = (w.masked ≡ true) × (w.caught ≡ true)

-- The signal is pending from `kill` on, until `sigsuspend` returns.
abbrev pub Telling : Parent → Child → World → Type 0
Telling Parent.block c w = (c ≡ Child.absent) × (w.pending ≡ false)
Telling Parent.install c w = (c ≡ Child.absent) × (w.pending ≡ false)
Telling Parent.fork c w = (c ≡ Child.absent) × (w.pending ≡ false)
Telling Parent.announce c w = (c ≢ Child.absent) × (w.pending ≡ told c)
Telling Parent.suspend c w = (c ≢ Child.absent) × (w.pending ≡ told c)
Telling Parent.waiting c w = (c ≢ Child.absent) × (w.pending ≡ told c)
Telling Parent.died c w = Unit
Telling Parent.killed c w = Unit
Telling p c w = c ≡ Child.ended

pub record Inv (s : System) : Type 0 where
  pub masks : Masks s.parent s.world
  pub signals : Telling s.parent s.child s.world
  pub shown : worked s.child ≡ true → shows_child_job s.world.out ≡ true
  pub ordered : Ordered s.world.out

inv :
    {w : World} {c : Child} {p : Parent}
    → Masks p w
    → Telling p c w
    → (worked c ≡ true → shows_child_job w.out ≡ true)
    → Ordered w.out
    → Inv (record { world = w; parent = p; child = c })
inv m g s o = record { masks = m; signals = g; shown = s; ordered = o }

told_ended : (c : Child) → told c ≡ true → c ≡ Child.ended
told_ended Child.ended h = refl
told_ended c h = absurd cc

-- A signal that has come is delivered in `sigsuspend` only.
handled-Inv :
    (w : World) (c : Child) (p : Parent)
    → is_over p ≡ false
    → w.pending ≡ true
    → w.masked ≡ false
    → Inv (record { world = w; parent = p; child = c })
    → Inv (record {
      world = record w { pending = false; masked = mask_behind p w; out = signaled ∷ w.out };
      parent = behind_handler p;
      child = c;
    })
handled-Inv w c Parent.block live n h i = absurd (let g = i.signals.1 in cc)
handled-Inv w c Parent.install live n h i = absurd (let g = i.masks in cc)
handled-Inv w c Parent.fork live n h i = absurd (let g = i.masks.0 in cc)
handled-Inv w c Parent.announce live n h i = absurd (let g = i.masks.0 in cc)
handled-Inv w c Parent.suspend live n h i = absurd (let g = i.masks.0 in cc)
handled-Inv w c Parent.waiting live n h i =
    inv i.masks.1 (told_ended c (sym i.signals.1 ∙ n)) i.shown i.ordered
handled-Inv w c Parent.job live n h i = absurd (let g = i.masks in cc)
handled-Inv w c Parent.restore live n h i = absurd (let g = i.masks in cc)
handled-Inv w c p live n h i = absurd cc

-- No signal ends the parent.
not_killed :
    (w : World) (c : Child) (p : Parent)
    → is_over p ≡ false
    → w.pending ≡ true
    → w.masked ≡ false
    → w.caught ≡ false
    → Inv (record { world = w; parent = p; child = c })
    → ⊥
not_killed w c Parent.block live n h u i = let g = i.signals.1 in cc
not_killed w c Parent.install live n h u i = let g = i.masks in cc
not_killed w c Parent.fork live n h u i = let g = i.masks.0 in cc
not_killed w c Parent.announce live n h u i = let g = i.masks.0 in cc
not_killed w c Parent.suspend live n h u i = let g = i.masks.0 in cc
not_killed w c Parent.waiting live n h u i = let g = i.masks.2 in cc
not_killed w c Parent.job live n h u i = let g = i.masks in cc
not_killed w c Parent.restore live n h u i = let g = i.masks in cc
not_killed w c p live n h u i = cc

parent-Inv :
    {w w' : World} {c c' : Child} {p p' : Parent}
    → ParentMoves w c p w' c' p'
    → Inv (record { world = w; parent = p; child = c })
    → Inv (record { world = w'; parent = p'; child = c' })
parent-Inv ParentMoves.blocks i = inv refl i.signals i.shown i.ordered
parent-Inv ParentMoves.installs i = inv (i.masks, refl) i.signals i.shown i.ordered
parent-Inv ParentMoves.forks i = inv i.masks ((λ e. cc), i.signals.1) (λ d. absurd cc) i.ordered
parent-Inv ParentMoves.announces i = inv i.masks i.signals i.shown i.ordered
parent-Inv ParentMoves.suspends i = inv (refl, i.masks.0, i.masks.1) i.signals i.shown i.ordered
parent-Inv {w = w} {c = c} ParentMoves.works i =
    inv i.masks i.signals i.shown (i.shown (ap worked i.signals), i.ordered)
parent-Inv ParentMoves.restores i = inv tt i.signals i.shown i.ordered
parent-Inv {w = w} {c = c} {p = p} (ParentMoves.handles live n h k) i = handled-Inv w c p live n h i
parent-Inv {w = w} {c = c} {p = p} (ParentMoves.kills live n h u) i =
    absurd (not_killed w c p live n h u i)

-- The child tells the parent once.
kill-Telling :
    (p : Parent) (w : World)
    → Telling p Child.notify w
    → Telling p Child.ended (record w { pending = true })
kill-Telling Parent.block w g = absurd (let d = g.0 in cc)
kill-Telling Parent.install w g = absurd (let d = g.0 in cc)
kill-Telling Parent.fork w g = absurd (let d = g.0 in cc)
kill-Telling Parent.announce w g = ((λ e. cc), refl)
kill-Telling Parent.suspend w g = ((λ e. cc), refl)
kill-Telling Parent.waiting w g = ((λ e. cc), refl)
kill-Telling Parent.died w g = tt
kill-Telling Parent.killed w g = tt
kill-Telling Parent.job w g = absurd (let d = g in cc)
kill-Telling Parent.restore w g = absurd (let d = g in cc)
kill-Telling Parent.finished w g = absurd (let d = g in cc)

-- A step of the child before its `kill`, which leaves its place among those that have not told yet
quiet-Telling :
    (p : Parent) (w : World) (c c' : Child) (ls : List Line)
    → told c ≡ false
    → told c' ≡ false
    → c ≢ Child.absent
    → c' ≢ Child.absent
    → Telling p c w
    → Telling p c' (record w { out = ls })
quiet-Telling Parent.block w c c' ls a b there there' g = absurd (there g.0)
quiet-Telling Parent.install w c c' ls a b there there' g = absurd (there g.0)
quiet-Telling Parent.fork w c c' ls a b there there' g = absurd (there g.0)
quiet-Telling Parent.announce w c c' ls a b there there' g = (there', g.1 ∙ a ∙ sym b)
quiet-Telling Parent.suspend w c c' ls a b there there' g = (there', g.1 ∙ a ∙ sym b)
quiet-Telling Parent.waiting w c c' ls a b there there' g = (there', g.1 ∙ a ∙ sym b)
quiet-Telling Parent.died w c c' ls a b there there' g = tt
quiet-Telling Parent.killed w c c' ls a b there there' g = tt
quiet-Telling Parent.job w c c' ls a b there there' g = absurd (let d = ap told g in cc)
quiet-Telling Parent.restore w c c' ls a b there there' g = absurd (let d = ap told g in cc)
quiet-Telling Parent.finished w c c' ls a b there there' g = absurd (let d = ap told g in cc)

-- The mask does not depend on what is printed and pending.
other-Masks :
    (p : Parent) (w : World) (n : Bool) (ls : List Line)
    → Masks p w
    → Masks p (record w { pending = n; out = ls })
other-Masks Parent.block w n ls m = m
other-Masks Parent.install w n ls m = m
other-Masks Parent.fork w n ls m = m
other-Masks Parent.announce w n ls m = m
other-Masks Parent.suspend w n ls m = m
other-Masks Parent.waiting w n ls m = m
other-Masks Parent.job w n ls m = m
other-Masks Parent.restore w n ls m = m
other-Masks Parent.finished w n ls m = m
other-Masks Parent.died w n ls m = m
other-Masks Parent.killed w n ls m = m

child-Inv :
    {w w' : World} {c c' : Child} (p : Parent)
    → ChildMoves w c w' c'
    → Inv (record { world = w; parent = p; child = c })
    → Inv (record { world = w'; parent = p; child = c' })
child-Inv {w = w} p ChildMoves.works i =
    inv (other-Masks p w w.pending _ i.masks)
      (quiet-Telling p w Child.job Child.rest _ refl refl (λ e. cc) (λ e. cc) i.signals) (λ d. refl)
      i.ordered
child-Inv {w = w} p ChildMoves.rests i =
    inv i.masks
      (quiet-Telling p w Child.rest Child.notify w.out refl refl (λ e. cc) (λ e. cc) i.signals)
      (λ d. i.shown refl) i.ordered
child-Inv {w = w} p ChildMoves.notifies i =
    inv (other-Masks p w true w.out i.masks) (kill-Telling p w i.signals) (λ d. i.shown refl)
      i.ordered

Step-Inv : {s t : System} → Step s t → Inv s → Inv t
Step-Inv (moves (parent_moves mv)) i = parent-Inv mv i
Step-Inv {s} (moves (child_moves mv)) i = child-Inv s.parent mv i
Step-Inv (dies f) i = inv tt tt i.shown i.ordered

begin-Inv : (inherited : Bool) → Inv (begin inherited)
unfolding begin
begin-Inv inherited = inv tt (refl, refl) (λ d. absurd cc) tt

pub Reach-Inv : {s : System} → Reach s → Inv s
Reach-Inv (start inherited) = begin-Inv inherited
Reach-Inv (later r st) = Step-Inv st (Reach-Inv r)
