-- ===== src/Net/Resolve/Sockets.antt =====
-- Which sockets the loops over the addresses leave open.
use mathlib.Core.Path.{subst}
use linuxapi.Base.{
  ℕ, String, ℤ, pos, minus_one, ◌==ℤ◌, ◌≡◌, ◌⊎◌, refl, sym, ap, ◌∙◌, Bool, true, false, inl, inr,
  List, [], ◌∷◌, ◌≤◌, length, if◌then◌else◌, arith,
}
use linuxapi.Posix.{
  Reply, result, failed, payload, ev, Trace, err_exit, Outcome, ret, stop, Sys, pure, ◌>>◌, call,
  call_or,
}
use linuxapi.Posix.Rules.{bind_rule, call_rule, call_or_rule}
use linuxapi.Net.{Call, entry, bind, connect, setsockopt, listen, freeaddrinfo}
use linuxapi.Net.Traffic.{open_fds}
use linuxapi.Net.Resolve.Entries.{EntriesPost, Won, NoneConnected, try_entries_lem}
use linuxapi.Net.Resolve.{Purpose, passive, active, listener, connector}

abbrev pub is_open : ℤ → List ℤ → Bool
is_open fd [] = false
is_open fd (x ∷ xs) = if x ==ℤ fd then true else is_open fd xs

-- The kernel sets no option of a descriptor that is not open: it answers EBADF.
abbrev pub Honest : Trace Call → Type 0
Honest [] = Unit
Honest (ev (setsockopt fd option) r ∷ log) =
    (failed r ≡ false → is_open fd (open_fds log) ≡ true) × Honest log
Honest (ev _ r ∷ log) = Honest log

abbrev pub AtMostOne : Trace Call → Type 0
AtMostOne log = length (open_fds log) ≤ 1

-- The last calls of `listener`: `fd` was bound to an address, with the answer 0, and listens.
abbrev pub Bound : (n : ℕ) → ℤ → Trace Call → Type 0
Bound n fd log =
    (rp : ℕ) × (b o l f : Reply) × (before : Trace Call) × (log
      ≡ ev freeaddrinfo f
        ∷ ev (listen fd n) l
        ∷ ev (setsockopt fd "SO_REUSEADDR") o
        ∷ ev (bind fd (entry rp)) b
        ∷ before)
    × (result b ≡ pos 0)
    × (failed l ≡ false)

abbrev pub ListenerPost : (n : ℕ) → Outcome Call ℤ → Type 0
ListenerPost n (ret fd rs log) = Honest log → (open_fds log ≡ fd ∷ []) × Bound n fd log
ListenerPost n (stop e log) = AtMostOne log

at_most_one :
    (log : Trace Call) → (open_fds log ≡ []) ⊎ ((fd : ℤ) × (open_fds log ≡ fd ∷ [])) → AtMostOne log
at_most_one log (inl h) = rw h (omega arith)
at_most_one log (inr (fd, h)) = rw h (omega arith)

-- What the loop over the addresses leaves.
abbrev Left : Purpose → ℤ → Trace Call → Type 0
Left purpose fd log =
    ((open_fds log ≡ fd ∷ []) × Won purpose fd log) ⊎ ((open_fds log ≡ []) × NoneConnected log)

few : (purpose : Purpose) (fd : ℤ) (log : Trace Call) → Left purpose fd log → AtMostOne log
few purpose fd log (inl h) = at_most_one log (inr (fd, h.0))
few purpose fd log (inr h) = at_most_one log (inl h.0)

closed_not_set :
    (fd : ℤ) (option : String) (r : Reply) (log : Trace Call)
    → open_fds log ≡ []
    → failed r ≡ false
    → Honest (ev (setsockopt fd option) r ∷ log)
    → ⊥
closed_not_set fd option r log none good honest = cc (ap (is_open fd) (sym none) ∙ honest.0 good)

module _ (service : String) (n : ℕ) where
  abbrev configure : ℤ → Sys Call ℤ
  configure lfd = do
    call_or (setsockopt lfd "SO_REUSEADDR") (err_exit "setsockopt()")
    call_or (listen lfd n) (err_exit "listen()")
    call freeaddrinfo
    pure lfd

  configure_lem :
      (lfd : ℤ) (rs : List Reply) (log : Trace Call)
      → Left passive lfd log
      → ListenerPost n (configure lfd rs log)
  configure_lem lfd rs log held =
      call_or_rule (ListenerPost n) _ _ _ rs log (few passive lfd log held)
        (λ r bad. few passive lfd log held)
        (λ r rs' lt set.
          call_or_rule (ListenerPost n) _ _ _ rs' _ (few passive lfd log held)
            (λ l bad. few passive lfd log held)
            (λ l rs'' lt' heard.
              call_rule (ListenerPost n) _ _ rs'' _ (few passive lfd log held)
                (λ f rest lt'' honest. open_one r l f set heard honest held)))
    where
      open_one :
          (r l f : Reply)
          → failed r ≡ false
          → failed l ≡ false
          → Honest (ev (setsockopt lfd "SO_REUSEADDR") r ∷ log)
          → Left passive lfd log
          → (open_fds log ≡ lfd ∷ [])
            × Bound n lfd (
                ev freeaddrinfo f
                ∷ ev (listen lfd n) l
                ∷ ev (setsockopt lfd "SO_REUSEADDR") r
                ∷ log)
      open_one r l f set heard honest (inl (h, (rp, b, before, e, bound))) = (
        h,
        (
          rp,
          b,
          r,
          l,
          f,
          before,
          ap
              (λ t.
                ev freeaddrinfo f ∷ ev (listen lfd n) l ∷ ev (setsockopt lfd "SO_REUSEADDR") r ∷ t)
              e,
          bound,
          heard,
        ),
      )
      open_one r l f set heard honest (inr h) =
          absurd (closed_not_set lfd "SO_REUSEADDR" r log h.0 set honest)

  listener-post : (rs : List Reply) → ListenerPost n (listener service n rs [])
  unfolding listener
  listener-post rs =
      call_or_rule (ListenerPost n) _ _ _ rs [] (omega arith) (λ r bad. omega arith)
        (λ list rs' lt. λ found.
          bind_rule (EntriesPost passive [] (length rs')) (ListenerPost n) _ configure
            (try_entries_lem passive [] true (length rs') (payload list) minus_one rs' _
              (omega arith) refl tt)
            (λ lfd rs'' log p. configure_lem lfd rs'' log p.0) (λ e log p. at_most_one log p))

-- If `listener` returns, the descriptor that it gives back is open, and it is the only socket that
-- the process holds: every socket whose `bind` failed has been closed. The kernel is taken to
-- refuse `setsockopt` for a descriptor that is not open.
pub listener_open :
    (service : String) (n : ℕ) (rs : List Reply) {lfd : ℤ} {rest : List Reply} {log : Trace Call}
    → listener service n rs [] ≡ ret lfd rest log
    → Honest log
    → (open_fds log ≡ lfd ∷ []) × Bound n lfd log
listener_open service n rs e honest = (subst (ListenerPost n) e (listener-post service n rs)) honest

-- The last calls of `connector`: `fd` was connected to an address.
abbrev pub Connected : ℤ → Trace Call → Type 0
Connected fd log =
    (rp : ℕ) × (c f : Reply) × (before : Trace Call) × (log
      ≡ ev freeaddrinfo f ∷ ev (connect fd (entry rp)) c ∷ before)
    × (failed c ≡ false)

abbrev pub ConnectorPost : Outcome Call ℤ → Type 0
ConnectorPost (ret fd rs log) =
    ((open_fds log ≡ fd ∷ []) × Connected fd log) ⊎ ((open_fds log ≡ []) × NoneConnected log)
ConnectorPost (stop e log) = AtMostOne log

-- `connector`, whatever the kernel answers, returns with the connected socket as the only one open,
-- or with none, where no `connect` has succeeded, and never holds more than one.
pub connector_sockets :
    (host service : String) (rs : List Reply) → ConnectorPost (connector host service rs [])
unfolding connector
connector_sockets host service rs =
    call_or_rule ConnectorPost _ _ _ rs [] (omega arith) (λ r bad. omega arith)
      (λ list rs' lt found.
        bind_rule (EntriesPost active [] (length rs')) ConnectorPost _ _
          (try_entries_lem active [] false (length rs') (payload list) minus_one rs' _ (omega arith)
            refl tt)
          (λ cfd rs'' log p.
            call_rule ConnectorPost _ _ rs'' log (few active cfd log p.0)
              (λ f rest lt'. kept cfd f log p.0))
          (λ e log p. at_most_one log p))
  where
    kept :
        (cfd : ℤ) (f : Reply) (log : Trace Call)
        → Left active cfd log
        → ((open_fds log ≡ cfd ∷ []) × Connected cfd (ev freeaddrinfo f ∷ log))
          ⊎ ((open_fds log ≡ []) × NoneConnected log)
    kept cfd f log (inl (h, (rp, c, before, e, good))) =
        inl (h, (rp, c, f, before, ap (λ t. ev freeaddrinfo f ∷ t) e, good))
    kept cfd f log (inr h) = inr h

-- If `listener` returns, the descriptor that it gives back was bound with success and listens, and it is
-- the only socket that the process holds: every socket whose `bind` failed has been closed. The kernel
-- is taken to refuse `setsockopt` for a descriptor that is not open. `connector`, whatever the kernel
-- answers, returns with the socket whose `connect` has just succeeded as the only one open, or with none,
-- where no `connect` has succeeded, and never holds more than one.
pub endpoints_hold :
    (host service : String) (n : ℕ) (rs cs : List Reply) {lfd : ℤ} {rest : List Reply}
    {log : Trace Call}
    → listener service n rs [] ≡ ret lfd rest log
    → Honest log
    → (open_fds log ≡ lfd ∷ []) × Bound n lfd log × ConnectorPost (connector host service cs [])
endpoints_hold host service n rs cs e honest =
    let l = listener_open service n rs e honest in (l.0, l.1, connector_sockets host service cs)
