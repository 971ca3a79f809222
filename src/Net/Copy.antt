-- ===== src/Net/Copy.antt =====
-- The loop `while((numread = read(in, buf, size)) > 0) if(write(out, buf, numread) != numread) stop`
-- of the stream servers and clients, of `echo` and, written with `break`, of the pipe children.
use linuxapi.Base.{
  ℕ, ℤ, ◌==ℤ◌, ==ℤ_refl, is_positive, ◌≡◌, ◌⊎◌, refl, ap, ◌∙◌, true, false, Bool-cases, inl, inr,
  List, [], ◌∷◌, ◌++◌, append-nil, append_assoc, length, take, drop, take-append-drop, ◌≤◌,
  if◌then◌else◌, arith,
}
use linuxapi.Posix.{
  Reply, fail, val, chunk, chunk_from, result, payload, count, take-count, count_of_result, ev,
  Trace, Stop, blocked, starved, Outcome, ret, stop, Sys, pure, halt, then_run, ◌>>=◌, call,
}
use linuxapi.Posix.Loop.{Next, again, leave, repeat, repeat_rule, Round}
use linuxapi.Posix.Rules.{bind_rule}
use linuxapi.Net.{Call, read, write}
use linuxapi.Net.Traffic.{received, delivered}

-- One round; `short` is what the program does about a short or failed write.
unfoldable pub copy_round :
    (in_fd out : ℤ) (size : ℕ) → Stop Call → Unit {0} → Sys Call (Next (Unit {0}) Reply)
copy_round in_fd out size short _ = do
  r ← call (read in_fd size)
  if is_positive (result r)
      then (do
        w ← call (write out (payload r))
        if result w ==ℤ result r then pure (again tt) else halt short)
      else pure (leave r)

-- The loop gives back the last answer to `read`: end of file or an error.
unfoldable pub copy : (in_fd out : ℤ) (size : ℕ) → Stop Call → Sys Call Reply
copy in_fd out size short = repeat (copy_round in_fd out size short) tt

abbrev pub InStep : ℤ → Trace Call → Type 0
InStep out log = received log ≡ delivered out log

abbrev pub IsEnd : Stop Call → Type 0
IsEnd starved = ⊥
IsEnd e = Unit

-- Where a process stands or ends, the receiver has every byte that was read; or the last ones are
-- in a write that is not answered yet, or in one that was short or failed (`short`).
abbrev pub Relayed : ℤ → Stop Call → Stop Call → Trace Call → Type 0
Relayed out short e log =
    IsEnd e
    × (InStep out log
        ⊎ ((lost : List ℕ) × (received log ≡ delivered out log ++ lost)
            × ((e ≡ short) ⊎ (e ≡ blocked (write out lost)))))

module _ (out : ℤ) (short : Stop Call) (K : Trace Call → Type 0) (in_fd : ℤ) (size : ℕ) where
  abbrev CopyStop : Stop Call → Trace Call → Type 0
  CopyStop e log =
      ((e ≡ blocked (read in_fd size)) × InStep out log)
      ⊎ ((lost : List ℕ) × (received log ≡ delivered out log ++ lost)
          × ((e ≡ short) ⊎ (e ≡ blocked (write out lost))))

  abbrev CopyPost : ℕ → Outcome Call Reply → Type 0
  CopyPost n (ret r rs log) =
      InStep out log × K log × (length rs ≤ n) × (is_positive (result r) ≡ false)
  CopyPost n (stop e log) = CopyStop e log × K log

  abbrev CopyInv : ℕ → Unit {0} → List Reply → Trace Call → Type 0
  CopyInv n _ rs log = InStep out log × K log × (length rs ≤ n)

module _ (out : ℤ) (short : Stop Call) (K : Trace Call → Type 0) (in_fd : ℤ) (size : ℕ)
    (K-read : (r : Reply) (log : Trace Call) → K log → K (ev (read in_fd size) r ∷ log))
    (K-write : (d : List ℕ) (r : Reply) (log : Trace Call)
      → K log
      → K (ev (write out d) r ∷ log)) where
  abbrev Inv : ℕ → Unit {0} → List Reply → Trace Call → Type 0
  Inv = CopyInv out short K in_fd size

  abbrev Post : ℕ → Outcome Call Reply → Type 0
  Post = CopyPost out short K in_fd size

  -- What a write of `d` adds to the delivered bytes.
  delivered-write :
      (d : List ℕ) (w : Reply) (log : Trace Call)
      → delivered out (ev (write out d) w ∷ log) ≡ delivered out log ++ take (count w) d
  delivered-write d w log = rw (==ℤ_refl out)

  InStep-write :
      (r w : Reply) (log : Trace Call)
      → (result w ==ℤ result r) ≡ true
      → InStep out log
      → InStep out (ev (write out (payload r)) w ∷ ev (read in_fd size) r ∷ log)
  InStep-write r w log e h =
      rw
        (
          delivered-write (payload r) w (ev (read in_fd size) r ∷ log),
          count_of_result w r e,
          take-count r,
          h,
        )
        refl

  CopyStop-short :
      (r w : Reply) (log : Trace Call)
      → InStep out log
      → CopyStop out short K in_fd size short
          (ev (write out (payload r)) w ∷ ev (read in_fd size) r ∷ log)
  CopyStop-short r w log h = inr (
    drop (count w) (payload r),
    rw
        (
          delivered-write (payload r) w (ev (read in_fd size) r ∷ log),
          h,
          append_assoc,
          take-append-drop,
        )
        refl,
    inl refl,
  )

  write_lem :
      (n : ℕ) (r : Reply) (rs : List Reply) (log : Trace Call)
      → Inv n tt (r ∷ rs) log
      → Round (Inv n) (Post n) (length (r ∷ rs)) (
          (do
            w ← call (write out (payload r))
            if result w ==ℤ result r then pure (again tt) else halt short)
            rs
            (ev (read in_fd size) r ∷ log))
  unfolding call
  write_lem n r [] log inv =
      (inr (payload r, ap (λ l. l ++ payload r) inv.0, inr refl), K-read r log inv.1)
  write_lem n r (w ∷ rs) log inv = elim (Bool-cases (result w ==ℤ result r)) [
    | inl full ↦ rw full (
      (InStep-write r w log full inv.0, K-write _ _ _ (K-read r log inv.1), omega (arith, inv.2)),
      omega arith,
    )
    | inr part ↦ rw part (CopyStop-short r w log inv.0, K-write _ _ _ (K-read r log inv.1))
  ]

  InStep-read :
      (r : Reply) (log : Trace Call)
      → is_positive (result r) ≡ false
      → InStep out log
      → InStep out (ev (read in_fd size) r ∷ log)
  InStep-read (fail e) log done h = append-nil (received log) ∙ h
  InStep-read (val n) log done h = append-nil (received log) ∙ h
  InStep-read (chunk []) log done h = append-nil (received log) ∙ h
  InStep-read (chunk (x ∷ d)) log done h = absurd (ground arith)
  InStep-read (chunk_from p []) log done h = append-nil (received log) ∙ h
  InStep-read (chunk_from p (x ∷ d)) log done h = absurd (ground arith)

  copy_round_lem :
      (n : ℕ) (u : Unit {0}) (rs : List Reply) (log : Trace Call)
      → Inv n u rs log
      → Round (Inv n) (Post n) (length rs) (copy_round in_fd out size short u rs log)
  unfolding copy_round call
  copy_round_lem n u [] log inv = (inl (refl, inv.0), inv.1)
  copy_round_lem n u (r ∷ rs) log inv = elim (Bool-cases (is_positive (result r))) [
    | inl more ↦ rw more (write_lem n r rs log inv)
    | inr done ↦
        rw done (InStep-read r log done inv.0, K-read r log inv.1, omega (arith, inv.2), done)
  ]

  copy_lem :
      (rs : List Reply) (log : Trace Call)
      → InStep out log
      → K log
      → Post (length rs) (copy in_fd out size short rs log)
  unfolding copy
  copy_lem rs log h k =
      repeat_rule (Inv (length rs)) (Post (length rs)) (copy_round in_fd out size short)
        (copy_round_lem (length rs)) tt rs log (h, k, omega arith)

  -- The rule for the loop: the receiver stays in step. The loop ends by end of file or an error of
  -- `read`, or the process waits in one of the two calls, or a write was short.
  pub copy_rule :
      {B : Type 0} (Q : Outcome Call B → Type 0) (next : Reply → Sys Call B) (rs : List Reply)
      (log : Trace Call)
      → InStep out log
      → K log
      → ((r : Reply) (rs' : List Reply) (log' : Trace Call)
          → InStep out log'
          → K log'
          → length rs' ≤ length rs
          → is_positive (result r) ≡ false
          → Q (next r rs' log'))
      → ((log' : Trace Call) → InStep out log' → K log' → Q (stop (blocked (read in_fd size)) log'))
      → ((d : List ℕ) (log' : Trace Call)
          → received log' ≡ delivered out log' ++ d
          → K log'
          → Q (stop (blocked (write out d)) log'))
      → ((lost : List ℕ) (log' : Trace Call)
          → received log' ≡ delivered out log' ++ lost
          → K log'
          → Q (stop short log'))
      → Q (then_run (copy in_fd out size short rs log) next)
  copy_rule Q next rs log h k done reading writing cut =
      bind_rule (Post (length rs)) Q (copy in_fd out size short rs log) next (copy_lem rs log h k)
        (λ r rs' log' p. done r rs' log' p.0 p.1 p.2 p.3) halted
    where
      halted :
          (e : Stop Call) (log' : Trace Call) → Post (length rs) (stop e log') → Q (stop e log')
      halted e log' (inl (at, q), held) = rw at (reading log' q held)
      halted e log' (inr (lost, q, inl at), held) = rw at (cut lost log' q held)
      halted e log' (inr (lost, q, inr at), held) = rw at (writing lost log' q held)
