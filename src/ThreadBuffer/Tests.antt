-- ===== src/ThreadBuffer/Tests.antt =====
-- Runs in which the second thread writes its message before the first one prints.
use linuxapi.Base.{ℕ, ◌≡◌, ◌≢◌, refl, true, List, [], ◌∷◌}
use linuxapi.ThreadBuffer.{
  Function, message, Goes, Starts, bad_key, null_store, System, thread1, thread2, creates1,
  creates2, begin, Reach, start, later,
}
use linuxapi.ThreadBuffer.Own.{own_messages}
use linuxapi.ThreadBuffer.Stages.{OwnMessage}

abbrev one : List ℕ
one = 49 ∷ []

abbrev two : List ℕ
two = 50 ∷ []

-- With the static buffer the first thread prints the message of the second.
mixed : (s : System) × Reach Function.unsafe one two s × (s.t1.out ≡ message two ∷ [])
unfolding begin
mixed = (
  _,
  later
      (later
        (later
          (later (later start refl (creates1 refl Starts.with_static)) refl
            (creates2 refl Starts.with_static))
          refl (thread1 (Goes.formats refl (λ e. cc))))
        refl (thread2 (Goes.formats refl (λ e. cc))))
      refl (thread1 (Goes.prints refl)),
  refl,
)

-- Both threads have written to their arrays, and the first one has printed.
own_run : (s : System) × Reach Function.with_tls one two s × (s.t1.out ≡ message one ∷ [])
unfolding begin
own_run = (
  _,
  later
      (later
        (later
          (later (later start refl (creates1 refl (Starts.with_array 7 [] refl))) refl
            (creates2 refl (Starts.with_array 9 one refl)))
          refl (thread1 (Goes.formats refl (λ e. cc))))
        refl (thread2 (Goes.formats refl (λ e. cc))))
      refl (thread1 (Goes.prints refl)),
  refl,
)

-- With a key: the first thread has got memory, printed, and given it back to the second.
key_run : (s : System) × Reach Function.with_tsd one two s × (s.t2.ptr ≡ 7)
unfolding begin
key_run = (
  _,
  later
      (later
        (later
          (later
            (later
              (later
                (later
                  (later
                    (later
                      (later (later start refl (creates1 refl Starts.without)) refl
                        (creates2 refl Starts.without))
                      refl (thread1 (Goes.makes_key refl)))
                    refl (thread1 (Goes.gets_none refl refl refl)))
                  refl (thread1 (Goes.allocates 7 [] refl refl)))
                refl (thread1 (Goes.formats refl (λ e. cc))))
              refl (thread1 (Goes.prints refl)))
            refl (thread1 (Goes.destroys refl (λ e. cc))))
          refl (thread2 (Goes.makes_key refl)))
        refl (thread2 (Goes.gets_none refl refl refl)))
      refl (thread2 (Goes.allocates 7 two refl refl)),
  refl,
)

own_messages_example :
    OwnMessage one own_run.0.mem own_run.0.t1
    × OwnMessage two own_run.0.mem own_run.0.t2
    × (own_run.0.end ≢ bad_key)
    × (own_run.0.end ≡ null_store → own_run.0.mem.denied ≡ true)
own_messages_example = own_messages (λ e. cc) own_run.1
