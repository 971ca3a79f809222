-- ===== src/Shm/Terminal.antt =====
-- What the reader's calls of `write`, whose answers it does not look at, bring to the terminal.
use linuxapi.Base.{
  ℕ, suc, ◌≡◌, ◌⊎◌, refl, sym, ap, ◌∙◌, inl, inr, ◌==ℤ◌, Bool, true, false, ◌||◌, Bool-cases, List,
  [], ◌∷◌, ◌++◌, append_assoc, append-nil, length, take, arith,
}
use mathlib.Core.Bool.{not}
use linuxapi.Posix.{Reply, result, count, payload, failed, take-count, count_of_result}
use linuxapi.Shm.{
  Mem, Writes, Reads, System, Step, by_writer, by_reader, setup, Reach, start, later,
}

-- The first list, oldest first, and the second behind it
abbrev pub reversed_onto : List Reply → List Reply → List Reply
reversed_onto [] rest = rest
reversed_onto (x ∷ xs) rest = reversed_onto xs (x ∷ rest)

pub reversed_onto-append : (xs ys : List Reply) → reversed_onto xs ys ≡ reversed_onto xs [] ++ ys
reversed_onto-append [] ys = refl
reversed_onto-append (x ∷ xs) ys =
    rw (reversed_onto-append xs (x ∷ ys), reversed_onto-append xs (x ∷ []))
      (sym (append_assoc _ (x ∷ []) ys))

-- The bytes that the terminal has of the blocks handed to `write`: of each as many as `write` took.
abbrev pub terminal : (out answers : List Reply) → List ℕ
terminal [] answers = []
terminal (b ∷ out) [] = terminal out []
terminal (b ∷ out) (w ∷ answers) = terminal out answers ++ take (count w) (payload b)

-- A block came from a `read` that has failed, or `write` has not taken all of a block.
abbrev pub any_short : (out answers : List Reply) → Bool
any_short [] answers = false
any_short (b ∷ out) [] = any_short out []
any_short (b ∷ out) (w ∷ answers) =
    (failed b || not (result w ==ℤ result b)) || any_short out answers

-- The bytes of blocks
abbrev pub bytes : List Reply → List ℕ
bytes [] = []
bytes (b ∷ bs) = payload b ++ bytes bs

bytes-append : (bs cs : List Reply) → bytes (bs ++ cs) ≡ bytes bs ++ bytes cs
bytes-append [] cs = refl
bytes-append (b ∷ bs) cs =
    ap (λ l. payload b ++ l) (bytes-append bs cs)
    ∙ sym (append_assoc (payload b) (bytes bs) (bytes cs))

-- Each `write` has one answer.
abbrev Paired : Mem → Type 0
Paired m = length m.out ≡ length m.answers

Step-Paired : {s t : System} → Step s t → Paired s.mem → Paired t.mem
Step-Paired (by_writer (Writes.take_write e)) h = h
Step-Paired (by_writer (Writes.load e)) h = h
Step-Paired (by_writer Writes.post_read) h = h
Step-Paired (by_writer (Writes.more e)) h = h
Step-Paired (by_writer (Writes.last e)) h = h
Step-Paired (by_writer (Writes.take_last e)) h = h
Step-Paired (by_writer Writes.remove) h = h
Step-Paired (by_writer Writes.reserve_fails) h = h
Step-Paired (by_writer Writes.publish_fails) h = h
Step-Paired (by_writer Writes.confirm_fails) h = h
Step-Paired (by_writer Writes.cleanup_fails) h = h
Step-Paired (by_reader (Reads.take_read e)) h = h
Step-Paired (by_reader (Reads.goes_on e)) h = h
Step-Paired (by_reader (Reads.ends e)) h = h
Step-Paired (by_reader (Reads.show w e)) h = ap suc h
Step-Paired (by_reader Reads.post_write) h = h
Step-Paired (by_reader Reads.unmap) h = h
Step-Paired (by_reader Reads.post_last) h = h
Step-Paired (by_reader Reads.await_fails) h = h
Step-Paired (by_reader Reads.release_fails) h = h
Step-Paired (by_reader Reads.detach_fails) h = h
Step-Paired (by_reader Reads.notify_fails) h = h

Reach-Paired : {input : List Reply} {s : System} → Reach input s → Paired s.mem
unfolding setup
Reach-Paired start = refl
Reach-Paired (later r st) = Step-Paired st (Reach-Paired r)

or_clear : (a b : Bool) → (a || b) ≡ false → (a ≡ false) × (b ≡ false)
or_clear true b h = absurd cc
or_clear false b h = (refl, h)

not_clear : (a : Bool) → not a ≡ false → a ≡ true
not_clear true h = refl
not_clear false h = sym h

taken :
    (b w : Reply)
    → (failed b || not (result w ==ℤ result b)) ≡ false
    → take (count w) (payload b) ≡ payload b
taken b w h =
    let same = not_clear _ (or_clear (failed b) _ h).1 in
    ap (λ n. take n (payload b)) (count_of_result w b same) ∙ take-count b

all_taken :
    (out answers : List Reply)
    → length out ≡ length answers
    → any_short out answers ≡ false
    → terminal out answers ≡ bytes (reversed_onto out [])
all_taken [] answers h full = refl
all_taken (b ∷ out) [] h full = absurd (omega (arith, h))
all_taken (b ∷ out) (w ∷ answers) h full =
    let f = or_clear _ (any_short out answers) full in
    ap (λ l. l ++ take (count w) (payload b)) (all_taken out answers (omega (arith, h)) f.1)
    ∙ ap (λ l. bytes (reversed_onto out []) ++ l) (taken b w f.0 ∙ sym (append-nil (payload b)))
    ∙ sym (bytes-append (reversed_onto out []) (b ∷ []))
    ∙ ap bytes (sym (reversed_onto-append out (b ∷ [])))

-- The terminal has all bytes of the blocks, or a `read` has failed or a `write` was short.
abbrev pub OnTerminal : Mem → Type 0
OnTerminal m =
    (any_short m.out m.answers ≡ true) ⊎ (terminal m.out m.answers ≡ bytes (reversed_onto m.out []))

pub Reach-OnTerminal : {input : List Reply} {s : System} → Reach input s → OnTerminal s.mem
Reach-OnTerminal {s = s} r = elim (Bool-cases (any_short s.mem.out s.mem.answers)) [
  | inl short ↦ inl short
  | inr full ↦ inr (all_taken s.mem.out s.mem.answers (Reach-Paired r) full)
]
