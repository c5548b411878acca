-- ===== src/Dial/Conn.antt =====
-- Closing a `wrappedConn` of internal/serverdial/server_dial.go.
use side_eye_go.Prelude.{◌≡◌, refl, true, Option, List, [], ◌∷◌, arith, map}
use side_eye_go.Go.{GoError}
use side_eye_go.Dial.{WrappedConn, wrap_conn, close, close_all}

close_all_done :
    (answers : List (Option GoError)) (w : WrappedConn)
    → w.once_done ≡ true
    → close_all answers w ≡ (map (λ a. w.close_err) answers, w)
unfolding close_all
close_all_done [] w h = refl
close_all_done (a ∷ answers) w h = ground (arith, close_all_done answers w h)

-- However often a connection is closed, and whatever the inner Close would answer each time: the
-- inner Close runs once, the channel is closed once, and every call returns the first answer.
pub close_all_once :
    (first : Option GoError) (others : List (Option GoError))
    → ((close_all (first ∷ others) wrap_conn).0 ≡ map (λ a. first) (first ∷ others))
      × ((close_all (first ∷ others) wrap_conn).1.closes ≡ 1)
      × ((close_all (first ∷ others) wrap_conn).1.signals ≡ 1)
unfolding close_all
close_all_once first others = ground (arith, close_all_done others (close first wrap_conn).1)
