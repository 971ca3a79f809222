-- ===== src/Multiplex/Waiting.antt =====
-- The samples that wait for one descriptor with a timeout.
use linuxapi.Base.{
  ℕ, zero, suc, Option, some, ◌≤◌, ◌<◌, ◌==◌, ltb, ◌≡◌, refl, ap, String, ℤ, true, Bool-cases, inl,
  inr, List, [], ◌∷◌, length, if◌then◌else◌, arith,
}
use linuxapi.Posix.{
  Reply, fail, val, chunk, chunk_from, result, payload, count, failed, ev, Trace, blocked, err_exit,
  overrun, Outcome, ret, stop,
}
use linuxapi.Posix.Loop.{Round, repeat_rule}
use linuxapi.Posix.Rules.{call_or_rule}
use linuxapi.FileIo.{text}
use linuxapi.Multiplex.{
  Call, read, print_read, print_elapsed, buf_size, is_readable, show_read, wait_round, wait_sample,
  select_sample, pselect_sample, poll_sample,
}

-- What is to be printed of the reads that gave some bytes: the result and the text; what is printed; and
-- how often `time elapsed` is printed; the newest first.
abbrev pub got : Trace Call → List (ℤ × Option (List ℕ))
got [] = []
got (ev (read fd n) r ∷ log) =
    if count r == 0 then got log else (result r, some (text (payload r))) ∷ got log
got (ev _ r ∷ log) = got log

abbrev pub shown : Trace Call → List (ℤ × Option (List ℕ))
shown [] = []
shown (ev (print_read n d) r ∷ log) = (n, d) ∷ shown log
shown (ev _ r ∷ log) = shown log

-- The bytes before the first NUL
abbrev pub IsText : (bytes text : List ℕ) → Type 0
IsText [] s = s ≡ []
IsText (zero ∷ bytes) s = s ≡ []
IsText (suc c ∷ bytes) [] = ⊥
IsText (suc c ∷ bytes) (d ∷ s) = (d ≡ suc c) × IsText bytes s

text-IsText : (bytes : List ℕ) → IsText bytes (text bytes)
text-IsText [] = refl
text-IsText (zero ∷ bytes) = refl
text-IsText (suc c ∷ bytes) = (refl, text-IsText bytes)

abbrev pub elapsed : Trace Call → ℕ
elapsed [] = 0
elapsed (ev print_elapsed r ∷ log) = suc (elapsed log)
elapsed (ev _ r ∷ log) = elapsed log

abbrev pub UpToDate : Trace Call → Type 0
UpToDate log = (shown log ≡ got log) × (elapsed log ≡ 0)

-- The last read has filled the buffer.
abbrev pub Filled : Trace Call → Type 0
Filled [] = ⊥
Filled (ev (read fd n) r ∷ log) = UpToDate log × (n ≤ count r)
Filled (ev c r ∷ log) = ⊥

abbrev pub WaitPost : Outcome Call (Unit {0}) → Type 0
WaitPost (ret u rs log) = (shown log ≡ got log) × (elapsed log ≡ 1)
WaitPost (stop (blocked c) log) = UpToDate log
WaitPost (stop (err_exit name) log) = UpToDate log
WaitPost (stop overrun log) = Filled log
WaitPost (stop e log) = ⊥

abbrev Inv : Unit {0} → List Reply → Trace Call → Type 0
Inv u rs log = UpToDate log

no_count : (r : Reply) → failed r ≡ true → (count r == 0) ≡ true
no_count (fail e) h = refl
no_count (val n) h = absurd (ground arith)
no_count (chunk d) h = absurd (ground arith)
no_count (chunk_from p d) h = absurd (ground arith)

show_read_lem :
    (fd : ℤ) (r : Reply) (k : ℕ) (rs : List Reply) (log : Trace Call)
    → UpToDate log
    → length rs < k
    → Round Inv WaitPost k (show_read r rs (ev (read fd buf_size) r ∷ log))
unfolding show_read
show_read_lem fd r k rs log h lt = elim (Bool-cases (count r == 0)) [
  | inl none_ ↦ rw none_ ((rw none_ h.0, h.1), lt)
  | inr some_ ↦ rw some_ (elim (Bool-cases (ltb (count r) buf_size)) [
    | inl fits ↦ rw fits ((rw (some_, h.0) refl, h.1), lt)
    | inr full ↦ rw full (h, ground arith)
  ])
]

wait_round_lem :
    (name : String) (fd : ℤ) (u : Unit {0}) (rs : List Reply) (log : Trace Call)
    → Inv u rs log
    → Round Inv WaitPost (length rs) (wait_round name fd u rs log)
unfolding wait_round
wait_round_lem name fd u rs log h =
    call_or_rule (Round Inv WaitPost (length rs)) _ _ _ rs log h (λ r bad. h)
      (λ r rs1 lt good. elim (Bool-cases (count r == 0)) [
        | inl timeout ↦ rw timeout (h.0, ap suc h.1)
        | inr ready ↦ rw ready (elim (Bool-cases (is_readable (payload r))) [
          | inl readable ↦ rw readable (
              call_or_rule (Round Inv WaitPost (length rs)) _ _ _ rs1 _ h
                (λ g bad. (rw (no_count g bad) h.0, h.1))
                (λ g rs2 lt2 ok. show_read_lem fd g (length rs) rs2 _ h (omega (arith, lt, lt2))))
          | inr other ↦ rw other (h, lt)
        ])
      ])

wait_sample_lem : (name : String) (rs : List Reply) → WaitPost (wait_sample name rs [])
unfolding wait_sample
wait_sample_lem name rs =
    call_or_rule WaitPost _ _ _ rs [] (refl, refl) (λ r bad. (refl, refl))
      (λ fd rs1 lt good.
        repeat_rule Inv WaitPost (wait_round name (result fd)) (wait_round_lem name (result fd)) tt
          rs1 _ (refl, refl))

-- Each of `select_sample`, `pselect_sample` and `poll_sample`, whatever the kernel answers, prints, for
-- every read that gave some bytes, their number and their text, in order, at once; the text of `bytes` is
-- what stands before their first NUL. It returns only after it has printed that the time is over, and it
-- leaves the buffer only when a read has filled it. Where it waits or ends by `errexit`, it has printed
-- the text of all reads so far and no timeout.
pub samples_show_reads :
    (rs : List Reply) (bytes : List ℕ)
    → WaitPost (select_sample rs [])
      × WaitPost (pselect_sample rs [])
      × WaitPost (poll_sample rs [])
      × IsText bytes (text bytes)
unfolding select_sample pselect_sample poll_sample
samples_show_reads rs bytes = (
  wait_sample_lem "select" rs,
  wait_sample_lem "pselect" rs,
  wait_sample_lem "poll" rs,
  text-IsText bytes,
)
