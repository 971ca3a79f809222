-- ===== src/Shm/Liveness.antt =====
-- Which of the two processes can go on.
use linuxapi.Base.{
  ℕ, zero, suc, ◌≡◌, ◌⊎◌, refl, inl, inr, true, Bool-cases, List, [], ◌∷◌, ◌++◌, arith,
}
use linuxapi.Posix.{Reply, chunk}
use linuxapi.Shm.{
  Mem, at_end, Writer, Reader, Writes, Reads, System, Step, by_writer, by_reader, Reach,
}
use linuxapi.Shm.Terminal.{OnTerminal, Reach-OnTerminal}
use linuxapi.Shm.Transfer.{shown_blocks, shown-prefix}
use linuxapi.Shm.Invariant.{Inv, writer_turn, gone, Reach-Inv}

abbrev pub WriterAlive : Writer → Type 0
WriterAlive (Writer.died n) = ⊥
WriterAlive w = Unit

abbrev pub ReaderAlive : Reader → Type 0
ReaderAlive (Reader.died n) = ⊥
ReaderAlive r = Unit

abbrev pub Alive : System → Type 0
Alive s = WriterAlive s.writer × ReaderAlive s.reader

-- A step after which both processes are alive.
abbrev pub Moves : System → Type 0
Moves s = (t : System) × Step s t × Alive t

-- Both are through, or the writer waits for standard input, or one of the two can go on.
abbrev pub NotStuck : System → Type 0
NotStuck s =
    ((s.writer ≡ Writer.finished) × (s.reader ≡ Reader.finished))
    ⊎ (((s.writer ≡ Writer.fill) × (s.mem.input ≡ [])) ⊎ Moves s)

abbrev sys : Mem → Writer → Reader → System
sys m w r = record { mem = m; writer = w; reader = r }

reader-Moves :
    (m : Mem) (w : Writer) (r : Reader)
    → Inv (sys m w r)
    → m.write_sem ≡ 0
    → writer_turn w ≡ 0
    → WriterAlive w
    → ReaderAlive r
    → Moves (sys m w r)
reader-Moves m w Reader.await inv z t a b =
    (_, by_reader (Reads.take_read {n = 0} (omega (arith, inv.turns))), (a, tt))
reader-Moves m w Reader.check inv z t a b = elim (Bool-cases (at_end m.block)) [
  | inl e ↦ (_, by_reader (Reads.ends e), (a, tt))
  | inr e ↦ (_, by_reader (Reads.goes_on e), (a, tt))
]
reader-Moves m w Reader.print inv z t a b =
    (_, by_reader (Reads.show (chunk []) inv.reader_view.0.1), (a, tt))
reader-Moves m w Reader.release inv z t a b = (_, by_reader Reads.post_write, (a, tt))
reader-Moves m w Reader.detach inv z t a b = (_, by_reader Reads.unmap, (a, tt))
reader-Moves m w Reader.notify inv z t a b = (_, by_reader Reads.post_last, (a, tt))
reader-Moves m w Reader.finished inv z t a b = absurd (omega (arith, inv.turns, inv.reader_view.2))
reader-Moves m w (Reader.died n) inv z t a b = absurd b

-- At a `semop` that waits for WRITE_SEM the writer goes on, or the reader does.
at_write_sem :
    (m : Mem) (w : Writer) (r : Reader) (k : ℕ)
    → m.write_sem ≡ k
    → ((n : ℕ) → m.write_sem ≡ suc n → Moves (sys m w r))
    → Inv (sys m w r)
    → writer_turn w ≡ 0
    → WriterAlive w
    → ReaderAlive r
    → Moves (sys m w r)
at_write_sem m w r zero e go inv t a b = reader-Moves m w r inv e t a b
at_write_sem m w r (suc k) e go inv t a b = go k e

at_fill :
    (m : Mem) (r : Reader) (l : List Reply)
    → m.input ≡ l
    → ReaderAlive r
    → NotStuck (sys m Writer.fill r)
at_fill m r [] e b = inr (inl (refl, e))
at_fill m r (x ∷ l) e b = inr (inr (_, by_writer (Writes.load e), (tt, b)))

gone_finished : (r : Reader) → gone r ≡ true → r ≡ Reader.finished
gone_finished Reader.finished g = refl
gone_finished Reader.await g = absurd (ground arith)
gone_finished r g = absurd (ground arith)

NotStuck-at :
    (m : Mem) (w : Writer) (r : Reader)
    → Inv (sys m w r)
    → WriterAlive w
    → ReaderAlive r
    → NotStuck (sys m w r)
NotStuck-at m Writer.reserve r inv a b = inr (
    inr (
      at_write_sem m Writer.reserve r m.write_sem refl
        (λ n e. (_, by_writer (Writes.take_write e), (tt, b))) inv refl tt b))
NotStuck-at m Writer.fill r inv a b = at_fill m r m.input refl b
NotStuck-at m Writer.publish r inv a b = inr (inr (_, by_writer Writes.post_read, (tt, b)))
NotStuck-at m Writer.test_end r inv a b = elim (Bool-cases (at_end m.block)) [
  | inl e ↦ inr (inr (_, by_writer (Writes.last e), (tt, b)))
  | inr e ↦ inr (inr (_, by_writer (Writes.more e), (tt, b)))
]
NotStuck-at m Writer.confirm r inv a b = inr (
    inr (
      at_write_sem m Writer.confirm r m.write_sem refl
        (λ n e. (_, by_writer (Writes.take_last e), (tt, b))) inv refl tt b))
NotStuck-at m Writer.cleanup r inv a b = inr (inr (_, by_writer Writes.remove, (tt, b)))
NotStuck-at m Writer.finished r inv a b = inl (refl, gone_finished r inv.phase)
NotStuck-at m (Writer.died n) r inv a b = absurd a

-- There is no deadlock: in every reachable state in which neither process has died, both are
-- through, or the writer waits for standard input, or one of them can make a step that leaves both
-- alive.
pub not_stuck : {input : List Reply} {s : System} → Reach input s → Alive s → NotStuck s
not_stuck {s} r alive = NotStuck-at s.mem s.writer s.reader (Reach-Inv r) alive.0 alive.1

-- In every reachable state in which neither process has died there is no deadlock: both are through,
-- or the writer waits for standard input, or one of them can make a step that leaves both alive. The
-- blocks that the reader has handed to `write` are an initial part of the blocks of standard input: none
-- is left out, doubled or reordered. Their bytes are all on the terminal, unless a `read` has failed or a
-- `write`, whose answer the reader ignores, was short or has failed.
pub transfer_goes_on :
    {input : List Reply} {s : System}
    → Reach input s
    → Alive s
    → NotStuck s × ((rest : List Reply) × (input ≡ shown_blocks s.mem ++ rest)) × OnTerminal s.mem
transfer_goes_on r alive = (not_stuck r alive, shown-prefix r, Reach-OnTerminal r)
