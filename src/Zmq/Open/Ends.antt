-- ===== src/Zmq/Open/Ends.antt =====
-- transports/zmq.py: what an opened channel has.
use chrono_daemon.Common.{All, Bool, List, [], false, true, ℕ, ◌++◌, ◌∷◌, ◌≡◌}
use chrono_daemon.Common.Int.{ℤ}
use chrono_daemon.Zmq.Open.{
  Opening, SocketCall, bind, connect, new_pair, opened, set_linger, set_rcvhwm, set_sndhwm,
}

module _ {A : Type 0} where
  -- What makes a socket of the number `i` ready: its options, then its address
  abbrev pub readies : ℕ → SocketCall A → ℕ → ℤ → List (ℕ × SocketCall A)
  readies i c h linger_ms =
      (i, new_pair)
      ∷ (i, set_sndhwm h)
      ∷ (i, set_rcvhwm h)
      ∷ (i, set_linger linger_ms)
      ∷ (i, c)
      ∷ []

  -- Both sockets: the receiver's, then the sender's, which does the opposite
  abbrev pub readies_both : A → Bool → ℕ → ℤ → List (ℕ × SocketCall A)
  readies_both address true h linger_ms =
      readies 0 (bind address) h linger_ms ++ readies 1 (connect address) h linger_ms
  readies_both address false h linger_ms =
      readies 0 (connect address) h linger_ms ++ readies 1 (bind address) h linger_ms

  -- An opening that makes the calls `cs` in order, until one raises
  pub record Makes (works : ℕ → SocketCall A → Bool) (valid : Bool) (cs : List (ℕ × SocketCall A))
      (o : Opening A) : Type 0 where
    pub left_out : List (ℕ × SocketCall A)
    pub in_order : o.calls ++ left_out ≡ cs
    pub whole : o.ending ≡ opened → o.calls ≡ cs
    pub works_out : valid ≡ true → All (λ c. works c.0 c.1 ≡ true) cs → o.ending ≡ opened
