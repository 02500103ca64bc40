-- ===== src/Zmq/Open.antt =====
-- transports/zmq.py: the opening of endpoints. Whether a call of a socket succeeds is a parameter; a
-- socket is named by the number of its endpoint.
pub mod Ends
use chrono_daemon.Common.{Bool, List, [], if◌then◌else◌, not, ℕ, ◌++◌, ◌∷◌}
use chrono_daemon.Common.Int.{pos_part, ℤ}
use chrono_daemon.Zmq.Frame.{config_ok, hwm}

-- ctx.socket(zmq.PAIR), setsockopt and so on
pub data SocketCall (A : Type 0) : Type 0 where
  new_pair : SocketCall A
  set_sndhwm set_rcvhwm : ℕ → SocketCall A
  set_linger : ℤ → SocketCall A
  bind connect : A → SocketCall A

pub data OpenEnd : Type 0 where
  opened value_error socket_error : OpenEnd

-- The calls made, in order, and how an opening ends.
pub record Opening (A : Type 0) : Type 0 where
  pub ending : OpenEnd
  pub calls : List (ℕ × SocketCall A)

-- The calls of _open_pair_socket
abbrev pub socket_calls : {A : Type 0} → A → Bool → ℕ → ℤ → List (SocketCall A)
socket_calls address binds maxsize linger_ms =
    new_pair
    ∷ set_sndhwm (hwm maxsize)
    ∷ set_rcvhwm (hwm maxsize)
    ∷ set_linger linger_ms
    ∷ (if binds then bind address else connect address)
    ∷ []

module _ {A : Type 0} (works : ℕ → SocketCall A → Bool) where
  -- One call after another, until one raises.
  unfoldable pub perform : ℕ → List (SocketCall A) → Opening A
  perform socket [] = record { ending = opened; calls = [] }
  perform socket (c ∷ rest) =
      let r = perform socket rest in
      if works socket c
      then record { ending = r.ending; calls = (socket, c) ∷ r.calls }
      else record { ending = socket_error; calls = (socket, c) ∷ [] }

  -- _open_pair_socket
  unfoldable pub open_pair_socket : ℕ → A → Bool → ℕ → ℤ → Opening A
  unfolding perform
  open_pair_socket socket address binds maxsize linger_ms =
      perform socket (socket_calls address binds maxsize linger_ms)

  -- open_zmq_send and open_zmq_receive, which differ in the endpoint that they wrap around it
  unfoldable pub open_zmq_end : ℕ → A → Bool → ℤ → ℤ → Opening A
  unfolding open_pair_socket config_ok
  open_zmq_end socket address binds maxsize linger_ms =
      if config_ok maxsize linger_ms
      then open_pair_socket socket address binds (pos_part maxsize) linger_ms
      else record { ending = value_error; calls = [] }

  unfoldable pub and_open : OpenEnd → List (ℕ × SocketCall A) → Opening A → Opening A
  and_open opened before second = record { ending = second.ending; calls = before ++ second.calls }
  and_open value_error before second = record { ending = value_error; calls = before }
  and_open socket_error before second = record { ending = socket_error; calls = before }

  -- open_zmq_channel: the socket 0 receives, the socket 1 sends.
  unfoldable pub open_zmq_channel : A → Bool → ℤ → ℤ → Opening A
  unfolding open_zmq_end and_open
  open_zmq_channel address bind_receive maxsize linger_ms =
      let first = open_zmq_end 0 address bind_receive maxsize linger_ms in
      and_open first.ending first.calls
        (open_zmq_end 1 address (not bind_receive) maxsize linger_ms)
