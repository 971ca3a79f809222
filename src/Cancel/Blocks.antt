-- ===== src/Cancel/Blocks.antt =====
-- No block is lost and none is freed twice.
use linuxapi.Base.{
  ℤ, pos, ==ℤ_refl, ◌≡◌, ◌⊎◌, inl, inr, refl, ap, ◌∙◌, Bool, true, false, Option, none, some, List,
  [], ◌∷◌, Bool-cases, arith,
}
use linuxapi.Cancel.{
  Function, Heap, release, Place, IsPoint, at_rest, at_print, Runs, allocates, allocates_none,
  returns, pushes, rests, prints, pops, frees, is_canceled, unwinds, cleans, System, is_over,
  was_canceled, runs, sleeps, cancels, joins, says, begin, Reach, start, later,
}

abbrev pub block : Option ℤ → List ℤ
block none = []
block (some b) = b ∷ []

-- The blocks that must be live: the one of the round, until it is freed. Without a handler, a
-- cancelled thread leaves it behind.
abbrev pub kept : Function → Place → Option ℤ → List ℤ
kept f (Place.allocate i) arr = []
kept f Place.returned arr = []
kept Function.plain Place.canceled arr = block arr
kept Function.with_cleanup Place.canceled arr = []
kept f p arr = block arr

-- The handler that must be installed.
abbrev due : Function → Place → Option ℤ → Option (Option ℤ)
due Function.with_cleanup (Place.rest i) arr = some arr
due Function.with_cleanup (Place.print i) arr = some arr
due Function.with_cleanup (Place.pop i) arr = some arr
due Function.with_cleanup Place.clean arr = some arr
due f p arr = none

-- Where each function never stands.
abbrev Stands : Function → Place → Type 0
Stands Function.plain (Place.push i) = ⊥
Stands Function.plain (Place.pop i) = ⊥
Stands Function.plain Place.clean = ⊥
Stands f p = Unit

record Keeps (f : Function) (h : Heap) (arr : Option ℤ) (handler : Option (Option ℤ)) (p : Place)
    : Type 0 where
  sound : h.corrupt ≡ false
  blocks : h.live ≡ kept f p arr
  handles : handler ≡ due f p arr
  stands : Stands f p

released :
    (a : Option ℤ) (h : Heap)
    → h.corrupt ≡ false
    → h.live ≡ block a
    → ((release a h).corrupt ≡ false) × ((release a h).live ≡ [])
unfolding release
released none h c l = (c, l)
released (some b) h c l = (rw (c, l, ==ℤ_refl b) refl, rw (l, ==ℤ_refl b) refl)

-- The block that the handler is to free is that of the round.
none-ne-some : {a : Option ℤ} {n : Option (Option ℤ)} → n ≡ none → n ≡ some a → ⊥
none-ne-some e d = cc

handled :
    {arr a : Option ℤ} {handler : Option (Option ℤ)}
    → handler ≡ some arr
    → handler ≡ some a
    → arr ≡ a
handled e d = cc

-- The fields, which each step must give again.
abbrev keeps :
    {f : Function} {h : Heap} {arr : Option ℤ} {handler : Option (Option ℤ)} {p : Place}
    → h.corrupt ≡ false
    → h.live ≡ kept f p arr
    → handler ≡ due f p arr
    → Stands f p
    → Keeps f h arr handler p
keeps c l d s = record { sound = c; blocks = l; handles = d; stands = s }

canceled-Keeps :
    (f : Function) {h : Heap} {arr : Option ℤ} {handler : Option (Option ℤ)} {p : Place}
    → IsPoint p
    → handler ≡ none
    → Keeps f h arr handler p
    → Keeps f h arr handler Place.canceled
canceled-Keeps Function.plain at_rest e k = keeps k.sound k.blocks e tt
canceled-Keeps Function.plain at_print e k = keeps k.sound k.blocks e tt
canceled-Keeps Function.with_cleanup at_rest e k = absurd (none-ne-some e k.handles)
canceled-Keeps Function.with_cleanup at_print e k = absurd (none-ne-some e k.handles)

unwinds-Keeps :
    (f : Function) {h : Heap} {arr a : Option ℤ} {handler : Option (Option ℤ)} {p : Place}
    → IsPoint p
    → handler ≡ some a
    → Keeps f h arr handler p
    → Keeps f h arr handler Place.clean
unwinds-Keeps Function.plain at_rest e k = absurd (none-ne-some k.handles e)
unwinds-Keeps Function.plain at_print e k = absurd (none-ne-some k.handles e)
unwinds-Keeps Function.with_cleanup at_rest e k = keeps k.sound k.blocks k.handles tt
unwinds-Keeps Function.with_cleanup at_print e k = keeps k.sound k.blocks k.handles tt

cleans-Keeps :
    (f : Function) {h : Heap} {arr a : Option ℤ} {handler : Option (Option ℤ)}
    → handler ≡ some a
    → Keeps f h arr handler Place.clean
    → Keeps f (release a h) arr none Place.canceled
cleans-Keeps Function.plain e k = absurd k.stands
cleans-Keeps Function.with_cleanup {h} {arr} {a} e k =
    let r = released a h k.sound (k.blocks ∙ ap block (handled k.handles e)) in
    keeps r.0 r.1 refl tt

Runs-Keeps :
    (f : Function) {asked : Bool} {h : Heap} {arr : Option ℤ} {handler : Option (Option ℤ)}
    {p : Place} {h' : Heap} {arr' : Option ℤ} {handler' : Option (Option ℤ)} {p' : Place}
    → Runs f asked h arr handler p h' arr' handler' p'
    → Keeps f h arr handler p
    → Keeps f h' arr' handler' p'
Runs-Keeps Function.plain {h = h} (allocates lt) k =
    keeps k.sound (ap (λ l. pos h.next ∷ l) k.blocks) k.handles tt
Runs-Keeps Function.with_cleanup {h = h} (allocates lt) k =
    keeps k.sound (ap (λ l. pos h.next ∷ l) k.blocks) k.handles tt
Runs-Keeps Function.plain (allocates_none lt) k = keeps k.sound k.blocks k.handles tt
Runs-Keeps Function.with_cleanup (allocates_none lt) k = keeps k.sound k.blocks k.handles tt
Runs-Keeps Function.plain (returns lt) k = keeps k.sound k.blocks k.handles tt
Runs-Keeps Function.with_cleanup (returns lt) k = keeps k.sound k.blocks k.handles tt
Runs-Keeps Function.plain pushes k = absurd k.stands
Runs-Keeps Function.with_cleanup pushes k = keeps k.sound k.blocks refl tt
Runs-Keeps Function.plain rests k = keeps k.sound k.blocks k.handles tt
Runs-Keeps Function.with_cleanup rests k = keeps k.sound k.blocks k.handles tt
Runs-Keeps Function.plain prints k = keeps k.sound k.blocks k.handles tt
Runs-Keeps Function.with_cleanup prints k = keeps k.sound k.blocks k.handles tt
Runs-Keeps Function.plain pops k = absurd k.stands
Runs-Keeps Function.with_cleanup pops k = keeps k.sound k.blocks refl tt
Runs-Keeps Function.plain {h = h} {arr} frees k =
    let r = released arr h k.sound k.blocks in keeps r.0 r.1 k.handles tt
Runs-Keeps Function.with_cleanup {h = h} {arr} frees k =
    let r = released arr h k.sound k.blocks in keeps r.0 r.1 k.handles tt
Runs-Keeps f (is_canceled asked at e) k = canceled-Keeps f at e k
Runs-Keeps f (unwinds asked at e) k = unwinds-Keeps f at e k
Runs-Keeps f (cleans e) k = cleans-Keeps f e k

abbrev Held : Function → System → Type 0
Held f s = Keeps f s.heap s.arr s.handler s.place

Reach-Held : (f : Function) {s : System} → Reach f s → Held f s
unfolding begin
Reach-Held Function.plain start = keeps refl refl refl tt
Reach-Held Function.with_cleanup start = keeps refl refl refl tt
Reach-Held f (later r (runs q)) = Runs-Keeps f q (Reach-Held f r)
Reach-Held f (later r (sleeps at)) = Reach-Held f r
Reach-Held f (later r (cancels at)) = Reach-Held f r
Reach-Held f (later r (joins at over)) = Reach-Held f r
Reach-Held f (later r (says at)) = Reach-Held f r

-- What is left of the blocks when the thread is over.
abbrev pub Left : Function → System → Type 0
Left Function.with_cleanup s = s.heap.live ≡ []
Left Function.plain s =
    (s.heap.live ≡ []) ⊎ ((was_canceled s.place ≡ true) × (s.heap.live ≡ block s.arr))

left : (f : Function) (s : System) → Held f s → (is_over s.place ≡ false) ⊎ Left f s
left f s k = over f s.place k
  where
    over :
        (f : Function) (p : Place)
        → Keeps f s.heap s.arr s.handler p
        → (is_over p ≡ false) ⊎ Left f (record s { place = p })
    over f (Place.allocate i) k = inl refl
    over f (Place.push i) k = inl refl
    over f (Place.rest i) k = inl refl
    over f (Place.print i) k = inl refl
    over f (Place.pop i) k = inl refl
    over f (Place.free i) k = inl refl
    over f Place.clean k = inl refl
    over Function.plain Place.returned k = inr (inl k.blocks)
    over Function.with_cleanup Place.returned k = inr k.blocks
    over Function.plain Place.canceled k = inr (inr (refl, k.blocks))
    over Function.with_cleanup Place.canceled k = inr k.blocks

-- A cancelled thread does not go on.
still_running :
    {f : Function} {asked : Bool} {h : Heap} {arr : Option ℤ} {handler : Option (Option ℤ)}
    {p : Place} {h' : Heap} {arr' : Option ℤ} {handler' : Option (Option ℤ)} {p' : Place}
    → Runs f asked h arr handler p h' arr' handler' p'
    → was_canceled p ≡ false
still_running (allocates lt) = refl
still_running (allocates_none lt) = refl
still_running (returns lt) = refl
still_running pushes = refl
still_running rests = refl
still_running prints = refl
still_running pops = refl
still_running frees = refl
still_running (is_canceled asked at_rest e) = refl
still_running (is_canceled asked at_print e) = refl
still_running (unwinds asked at_rest e) = refl
still_running (unwinds asked at_print e) = refl
still_running (cleans e) = refl

said_canceled :
    (f : Function) {s : System} → Reach f s → (s.said ≡ false) ⊎ (was_canceled s.place ≡ true)
unfolding begin
said_canceled f start = inl refl
said_canceled f (later r (runs q)) = elim (said_canceled f r) [
  | inl quiet ↦ inl quiet
  | inr over ↦ absurd (ground (arith, still_running q))
]
said_canceled f (later r (sleeps at)) = said_canceled f r
said_canceled f (later r (cancels at)) = said_canceled f r
said_canceled f (later r (joins at over)) = said_canceled f r
said_canceled f (later {s} r (says at)) = elim (Bool-cases (was_canceled s.place)) [
  | inl over ↦ inr over
  | inr other ↦ inl other
]

-- In every reachable state, with either function, `free` has been given live blocks and NULL only, so
-- none twice. When the thread is over, thread_func_cleanup has freed all its blocks, also where it was
-- cancelled; thread_func has too, but for that of the last round where it was cancelled. The main
-- thread says that the thread was cancelled only where it was.
pub blocks_freed :
    (f : Function) {s : System}
    → Reach f s
    → (s.heap.corrupt ≡ false)
      × ((is_over s.place ≡ false) ⊎ Left f s)
      × ((s.said ≡ false) ⊎ (was_canceled s.place ≡ true))
blocks_freed f {s} r = let k = Reach-Held f r in (k.sound, left f s k, said_canceled f r)
