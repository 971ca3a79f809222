-- ===== src/Shm/Transfer.antt =====
-- What the two processes achieve together.
use linuxapi.Base.{
  pos, ==ℤ_sound, ◌≡◌, ◌⊎◌, ◌≢◌, refl, sym, ap, ◌∙◌, inl, inr, true, some, List, [], ◌∷◌, ◌++◌,
  arith,
}
use mathlib.Core.Path.{subst}
use linuxapi.Posix.{Reply, result}
use linuxapi.Shm.{
  Mem, at_end, Writer, Reader, Writes, Reads, System, Step, by_writer, by_reader, setup, Reach,
  start, later,
}
use linuxapi.Shm.Terminal.{reversed_onto, reversed_onto-append, OnTerminal, Reach-OnTerminal}
use linuxapi.Shm.Invariant.{Inv, Behind, Level, gone, Phase, ReaderView, Reach-Inv}

-- `out` is an initial part of the input: nothing is lost, doubled or reordered.
Step-input :
    {s t : System}
    → Step s t
    → reversed_onto t.mem.sent t.mem.input ≡ reversed_onto s.mem.sent s.mem.input
Step-input {s} (by_writer (Writes.load e)) = ap (reversed_onto s.mem.sent) (sym e)
Step-input (by_writer (Writes.take_write e)) = refl
Step-input (by_writer Writes.post_read) = refl
Step-input (by_writer (Writes.more e)) = refl
Step-input (by_writer (Writes.last e)) = refl
Step-input (by_writer (Writes.take_last e)) = refl
Step-input (by_writer Writes.remove) = refl
Step-input (by_writer Writes.reserve_fails) = refl
Step-input (by_writer Writes.publish_fails) = refl
Step-input (by_writer Writes.confirm_fails) = refl
Step-input (by_writer Writes.cleanup_fails) = refl
Step-input (by_reader (Reads.take_read e)) = refl
Step-input (by_reader mv) = ground arith

Reach-input :
    {input : List Reply} {s : System} → Reach input s → reversed_onto s.mem.sent s.mem.input ≡ input
unfolding setup
Reach-input start = refl
Reach-input (later r st) = Step-input st ∙ Reach-input r

-- The state of the transfer: all blocks have been handed to `write`, or all but the last.
abbrev pub Progress : Mem → Type 0
Progress m = Level m ⊎ Behind m

shown :
    (m : Mem) {r : Reply} (w : Reply)
    → Behind m
    → m.block ≡ some r
    → Level (record m { out = r ∷ m.out; answers = w ∷ m.answers })
shown m w (b, held, q) e = ground arith

Step-Progress : {s t : System} → Inv s → Step s t → Progress s.mem → Progress t.mem
Step-Progress {s} inv (by_writer (Writes.load {r = b} e)) h =
    inr (b, refl, ap (λ l. b ∷ l) inv.writer_view.0)
Step-Progress inv (by_writer (Writes.take_write e)) h = h
Step-Progress inv (by_writer Writes.post_read) h = h
Step-Progress inv (by_writer (Writes.more e)) h = h
Step-Progress inv (by_writer (Writes.last e)) h = h
Step-Progress inv (by_writer (Writes.take_last e)) h = h
Step-Progress inv (by_writer Writes.remove) h = h
Step-Progress inv (by_writer Writes.reserve_fails) h = h
Step-Progress inv (by_writer Writes.publish_fails) h = h
Step-Progress inv (by_writer Writes.confirm_fails) h = h
Step-Progress inv (by_writer Writes.cleanup_fails) h = h
Step-Progress {s} inv (by_reader (Reads.show w e)) h = inl (shown s.mem w inv.reader_view.0 e)
Step-Progress inv (by_reader (Reads.take_read e)) h = h
Step-Progress inv (by_reader (Reads.goes_on e)) h = h
Step-Progress inv (by_reader (Reads.ends e)) h = h
Step-Progress inv (by_reader Reads.post_write) h = h
Step-Progress inv (by_reader Reads.unmap) h = h
Step-Progress inv (by_reader Reads.post_last) h = h
Step-Progress inv (by_reader Reads.await_fails) h = h
Step-Progress inv (by_reader Reads.release_fails) h = h
Step-Progress inv (by_reader Reads.detach_fails) h = h
Step-Progress inv (by_reader Reads.notify_fails) h = h

Reach-Progress : {input : List Reply} {s : System} → Reach input s → Progress s.mem
unfolding setup
Reach-Progress start = inl refl
Reach-Progress (later r st) = Step-Progress (Reach-Inv r) st (Reach-Progress r)

-- The blocks handed to `write`, oldest first.
abbrev pub shown_blocks : Mem → List Reply
shown_blocks m = reversed_onto m.out []

-- In every reachable state, also after one of the processes has died, the blocks that the reader
-- has handed to `write` are an initial part of the blocks of standard input: none is lost, doubled or
-- reordered.
pub shown-prefix :
    {input : List Reply} {s : System}
    → Reach input s
    → (rest : List Reply) × (input ≡ shown_blocks s.mem ++ rest)
shown-prefix {s} r = elim (Reach-Progress r) [
  | inl level ↦ (
    s.mem.input,
    sym (Reach-input r)
        ∙ ap (λ l. reversed_onto l s.mem.input) level
        ∙ reversed_onto-append s.mem.out s.mem.input,
  )
  | inr (b, held, behind) ↦ (
    b ∷ s.mem.input,
    sym (Reach-input r)
        ∙ ap (λ l. reversed_onto l s.mem.input) behind
        ∙ reversed_onto-append s.mem.out (b ∷ s.mem.input),
  )
]

-- In no reachable state is the writer about to fill the segment while the reader is about to test
-- or to print the block in it.
pub segment_exclusive :
    {input : List Reply} {s : System}
    → Reach input s
    → s.writer ≡ Writer.fill
    → (s.reader ≢ Reader.check) × (s.reader ≢ Reader.print)
segment_exclusive r w =
    let inv = Reach-Inv r in ((λ q. absurd (ground arith)), (λ q. absurd (ground arith)))

through :
    (r : Reader) (m : Mem)
    → gone r ≡ true
    → ReaderView r m
    → (r ≡ Reader.finished) × Behind m × (at_end m.block ≡ true)
through Reader.finished m g v = (refl, v.0, v.1)
through Reader.await m g v = absurd (ground arith)
through r m g v = absurd (ground arith)

-- When the writer has removed the semaphores and the segment, the reader is through, and it has handed
-- to `write` exactly the blocks of standard input before the end of file, in order. Their bytes are all on
-- the terminal, unless a `read` has failed or a `write`, whose answer the reader ignores, was short or
-- has failed.
pub removed_after_reader :
    {input : List Reply} {s : System}
    → Reach input s
    → s.writer ≡ Writer.finished
    → (s.reader ≡ Reader.finished)
      × ((eof : Reply) × (rest : List Reply) × (result eof ≡ pos 0)
          × (input ≡ shown_blocks s.mem ++ eof ∷ rest))
      × OnTerminal s.mem
removed_after_reader {input} {s} r w =
    (t.0, (t.1.0, s.mem.input, at_eof, whole), Reach-OnTerminal r)
  where
    inv : Inv s
    inv = Reach-Inv r

    t : (s.reader ≡ Reader.finished) × Behind s.mem × (at_end s.mem.block ≡ true)
    t = through s.reader s.mem (subst (λ x. Phase x s.reader) w inv.phase) inv.reader_view

    at_eof : result t.1.0 ≡ pos 0
    at_eof = ==ℤ_sound (result t.1.0) (pos 0) (sym (ap at_end t.1.1) ∙ t.2)

    whole : input ≡ shown_blocks s.mem ++ t.1.0 ∷ s.mem.input
    whole =
        sym (Reach-input r)
        ∙ ap (λ l. reversed_onto l s.mem.input) t.1.2
        ∙ reversed_onto-append s.mem.out (t.1.0 ∷ s.mem.input)
