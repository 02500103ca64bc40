-- ===== src/Zmq/Link/Way.antt =====
-- transports/zmq.py: the frames between the two endpoints, and what each call does with them.
use chrono_daemon.Common.{Bool, List, [], false, some, true, ◌++◌, ◌∷◌, ◌≡◌}
use chrono_daemon.Zmq.Frame.{Arrival, Frame, Serde, frame, tag_data, tag_eof}

module _ {T : Type 0} (serde : Serde T) where
  -- The items on the way, in order, and whether the end of the stream is behind them. What follows the
  -- end does not matter.
  pub data OnTheWay : Bool → List T → List Arrival → Type 0 where
    empty_way : OnTheWay false [] []
    end_of_way : (more : List Arrival) → OnTheWay true [] (frame (tag_eof ∷ []) ∷ more)
    next_item :
        {b : Bool} {xs : List T} {way : List Arrival} (x : T) (f : Frame)
        → serde.decode f ≡ some x
        → OnTheWay b xs way
        → OnTheWay b (x ∷ xs) (frame (tag_data ∷ f) ∷ way)

  pub way-item :
      {xs : List T} {way : List Arrival} (x : T) (f : Frame)
      → serde.decode f ≡ some x
      → OnTheWay false xs way
      → OnTheWay false (xs ++ x ∷ []) (way ++ frame (tag_data ∷ f) ∷ [])
  way-item x f e empty_way = next_item x f e empty_way
  way-item x f e (next_item y g d w) = next_item y g d (way-item x f e w)

  pub way-ends :
      {xs : List T} {way : List Arrival}
      → OnTheWay false xs way
      → OnTheWay true xs (way ++ frame (tag_eof ∷ []) ∷ [])
  way-ends empty_way = end_of_way []
  way-ends (next_item y g d w) = next_item y g d (way-ends w)

  pub way-more :
      {xs : List T} {way : List Arrival} (more : List Arrival)
      → OnTheWay true xs way
      → OnTheWay true xs (way ++ more)
  way-more more (end_of_way rest) = end_of_way (rest ++ more)
  way-more more (next_item y g d w) = next_item y g d (way-more more w)
