-- ===== src/SystemV/Msg/Served.antt =====
-- What the message queue server prints, and which queue it serves.
use linuxapi.Base.{
  ℕ, ℤ, negsuc, ◌<◌, ◌++◌, drop, sym, ◌∙◌, Option, none, some, else_case, ◌≡◌, refl, ap, inl, inr,
  true, false, Bool-cases, List, [], ◌∷◌, length, if◌then◌else◌, arith,
}
use linuxapi.Posix.{
  Reply, result, sender, overrun, payload, failed, ev, Trace, Stop, starved, Outcome, ret, stop,
}
use linuxapi.Posix.Loop.{Next, Round, repeat_rule}
use linuxapi.Posix.Rules.{bind_rule, call_rule, call_or_rule, guard_rule}
use linuxapi.SystemV.{Call, msgrcv, print_message, max_mtext}
use linuxapi.Inotify.{c_string}
use linuxapi.Inotify.Format.{NoNul, zeros, c_string-zeros}
use linuxapi.SystemV.Msg.{show_message, exists, create_round, receive_round, ipc_systemv_msg_server}

module _ (stale : List ℕ) where
  -- What `mtext` holds: each message over the one before
  abbrev pub held : Trace Call → List ℕ
  held [] = stale
  held (ev (msgrcv q n t) r ∷ log) =
      if failed r then held log else payload r ++ drop (length (payload r)) (held log)
  held (ev _ r ∷ log) = held log

  -- The types and texts of the messages received, the newest first; no text where `mtext` has no NUL.
  abbrev pub messages : Trace Call → List (ℕ × Option (List ℕ))
  messages [] = []
  messages (ev (msgrcv q n t) r ∷ log) =
      if failed r
      then messages log
      else (sender r, c_string (payload r ++ drop (length (payload r)) (held log))) ∷ messages log
  messages (ev _ r ∷ log) = messages log

-- Those printed
abbrev pub printed : Trace Call → List (ℕ × Option (List ℕ))
printed [] = []
printed (ev (print_message type s) r ∷ log) = (type, some s) ∷ printed log
printed (ev _ r ∷ log) = printed log

abbrev pub ServedPost : (stale : List ℕ) → Outcome Call (Unit {0}) → Type 0
ServedPost stale (ret u rs log) =
    (printed log ≡ messages stale log)
    × ((q : ℤ) × (n : ℕ) × (t : ℤ) × (r : Reply) × (before : Trace Call) × (log
          ≡ ev (msgrcv q n t) r ∷ before)
        × (failed r ≡ true))
ServedPost stale (stop starved log) = ⊥
ServedPost stale (stop overrun log) = (type : ℕ) × (messages stale log ≡ (type, none) ∷ printed log)
ServedPost stale (stop e log) = printed log ≡ messages stale log

-- Before the first message
abbrev Silent : Trace Call → Type 0
Silent log = (stale : List ℕ) → (printed log ≡ messages stale log) × (held stale log ≡ stale)

abbrev Inv : {A : Type 0} → A → List Reply → Trace Call → Type 0
Inv u rs log = Silent log

abbrev CreatedPost : Outcome Call ℤ → Type 0
CreatedPost (ret q rs log) = Silent log
CreatedPost (stop starved log) = ⊥
CreatedPost (stop overrun log) = ⊥
CreatedPost (stop e log) = Silent log

create_round_lem :
    (key : ℤ) (u : Unit {0}) (rs : List Reply) (log : Trace Call)
    → Inv u rs log
    → Round Inv CreatedPost (length rs) (create_round key u rs log)
unfolding create_round
create_round_lem key u rs log h = call_rule Q _ _ rs log h (λ r rs1 lt1.
    elim (Bool-cases (failed r)) [
      | inl bad ↦ rw bad (elim (Bool-cases (exists r)) [
        | inl old ↦ rw old (
            call_rule Q _ _ rs1 _ h (λ o rs2 lt2.
              call_or_rule Q _ _ _ rs2 _ h (λ x none. h) (λ x rest lt3 gone. (h, omega arith))))
        | inr other ↦ rw other (h, lt1)
      ])
      | inr good ↦ rw good h
    ])
  where
    Q : Outcome Call (Next (Unit {0}) ℤ) → Type 0
    Q = Round Inv CreatedPost (length rs)

abbrev TextsShown : (stale : List ℕ) → List ℕ → List Reply → Trace Call → Type 0
TextsShown stale mtext rs log = (printed log ≡ messages stale log) × (held stale log ≡ mtext)

show_message_lem :
    (stale : List ℕ) (n type : ℕ) (o : Option (List ℕ)) (msqid : ℤ) (mtext : List ℕ)
    (rs : List Reply) (log : Trace Call)
    → length rs < n
    → messages stale log ≡ (type, o) ∷ printed log
    → held stale log ≡ mtext
    → Round (TextsShown stale) (ServedPost stale) n (show_message type o msqid mtext rs log)
unfolding show_message
show_message_lem stale n type none msqid mtext rs log lt h e = (type, h)
show_message_lem stale n type (some s) msqid mtext rs log lt h e =
    call_or_rule (Round (TextsShown stale) (ServedPost stale) n) _ _ _ rs _ (sym h)
      (λ x none_. sym h) (λ x rest lt2 fine. ((sym h, e), omega (arith, lt, lt2)))

receive_round_lem :
    (stale : List ℕ) (msqid : ℤ) (mtext : List ℕ) (rs : List Reply) (log : Trace Call)
    → TextsShown stale mtext rs log
    → Round (TextsShown stale) (ServedPost stale) (length rs) (receive_round msqid mtext rs log)
unfolding receive_round
receive_round_lem stale msqid mtext rs log h = call_rule Q _ _ rs log h.0 (λ r rs1 lt1.
    elim (Bool-cases (failed r)) [
      | inl bad ↦ rw bad (rw bad h.0, (msqid, _, _, r, log, refl, bad))
      | inr good ↦ rw good (
          show_message_lem stale (length rs) (sender r) _ msqid _ rs1 _ lt1 (received r good)
            (buffered r good))
    ])
  where
    Q : Outcome Call (Next (List ℕ) (Unit {0})) → Type 0
    Q = Round (TextsShown stale) (ServedPost stale) (length rs)

    received :
        (r : Reply)
        → failed r ≡ false
        → messages stale (ev (msgrcv msqid max_mtext (negsuc 1)) r ∷ log)
          ≡ (sender r, c_string (payload r ++ drop (length (payload r)) mtext)) ∷ printed log
    received r good =
        else_case _ _ good
        ∙ ap
            (λ m.
              (sender r, c_string (payload r ++ drop (length (payload r)) m)) ∷ messages stale log)
            h.1
        ∙ ap (λ l. (sender r, c_string (payload r ++ drop (length (payload r)) mtext)) ∷ l)
            (sym h.0)

    buffered :
        (r : Reply)
        → failed r ≡ false
        → held stale (ev (msgrcv msqid max_mtext (negsuc 1)) r ∷ log)
          ≡ payload r ++ drop (length (payload r)) mtext
    buffered r good = else_case _ _ good ∙ ap (λ m. payload r ++ drop (length (payload r)) m) h.1

created_stop :
    (stale : List ℕ) (e : Stop Call) (log : Trace Call)
    → CreatedPost (stop e log)
    → ServedPost stale (stop e log)
created_stop stale starved log h = h
created_stop stale overrun log h = absurd h
created_stop stale e log h = (h stale).0

-- The message queue server, whatever the kernel answers and whatever `msg.mtext` holds at first: where it
-- waits or ends, it has printed the type of each message that it has received and the text that `mtext`
-- then held up to its first NUL, in order; it reads behind `mtext` only where there is no NUL, and then
-- the last message is not printed. It returns only after a `msgrcv` that has failed. A message whose bytes
-- are a text `s` without a NUL, and a NUL behind it, is printed as `s`.
pub server_prints :
    (stale s : List ℕ) (rs : List Reply)
    → NoNul s
    → ServedPost stale (ipc_systemv_msg_server stale rs [])
      × (c_string ((s ++ zeros 1) ++ drop (length (s ++ zeros 1)) stale) ≡ some s)
unfolding ipc_systemv_msg_server
server_prints stale s rs clean = (
  call_or_rule P _ _ _ rs [] refl (λ r bad. refl)
      (λ key rs1 lt1 got.
        bind_rule CreatedPost P _ _
          (repeat_rule Inv CreatedPost (create_round (result key)) (create_round_lem (result key))
            tt rs1 _ (λ x. (refl, refl)))
          (λ msqid rs2 log h.
            guard_rule P _ _ _ rs2 log (λ bad. (h stale).0)
              (λ fine. call_rule P _ _ rs2 _ (h stale).0 (λ o rs3 lt3.
                call_rule P _ _ rs3 _ (h stale).0 (λ w rs4 lt4.
                  guard_rule P _ _ _ rs4 _ (λ bad. (h stale).0)
                    (λ full. call_rule P _ _ rs4 _ (h stale).0 (λ c rs5 lt5.
                      repeat_rule (TextsShown stale) P (receive_round msqid)
                        (receive_round_lem stale msqid) stale rs5 _ (h stale)))))))
          (created_stop stale)),
  c_string-zeros s 0 _ clean,
)
  where
    P : Outcome Call (Unit {0}) → Type 0
    P = ServedPost stale
