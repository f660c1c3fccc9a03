-- ===== src/Ws/Reader.antt =====
-- `readLoop` and `ServeHTTP` of internal/ws/ws.go. The loop is over what `conn.Read` returns until it
-- returns an error; with each read goes what other goroutines do before it returns, and while its
-- handler waits.
use Prim.Native.String.{String}
use text.Mathlib.Text.{◌==◌ as str_beq}
use rps_backend.Hub.Conn.{close_auth_timeout, close_conn, error_reply}
use rps_backend.Hub.Defs.{Hub, disconnect, is_authenticated, modify_conn, register, send_to}
use rps_backend.Hub.Dispatch.{handle}
use rps_backend.Hub.Support.{External, Waits}
use rps_backend.Prelude.{Bool, List, [], if◌then◌else◌, not, ℕ, ◌||◌, ◌∷◌}
use rps_backend.Store.Defs.{Text}

abbrev pub read_limit : ℕ
read_limit = 4096

pub record Envelope : Type 0 where
  pub action : String
  pub request_id : Text
  pub payload : Text

pub record Frame : Type 0 where
  pub is_text : Bool
  pub bytes : Text

pub record Read : Type 0 where
  pub meanwhile : Hub → Hub
  pub frame : Frame
  pub waits : Waits

-- What `json.Unmarshal` leaves in the envelope, and whether it returned no error.
abbrev pub Unmarshal : Type 0
Unmarshal = Text → Envelope × Bool

abbrev pub send_error : ℕ → Text → String → String → Hub → Hub
send_error c request_id code_text text = send_to c request_id (error_reply code_text text)

module _ (x : External) (unmarshal : Unmarshal) (c : ℕ) where
  abbrev pub read_envelope : Envelope × Bool → Waits → Hub → Hub
  read_envelope (env, parsed) w h =
      if not parsed || str_beq env.action ""
      then send_error c env.request_id "bad_request" "malformed envelope" h
      else handle x env.action w c env.request_id env.payload h

  unfoldable pub read_frame : Frame → Waits → Hub → Hub
  read_frame f w h =
      if not f.is_text
      then send_error c [] "bad_request" "only text frames are accepted" h
      else read_envelope (unmarshal f.bytes) w h

  unfoldable pub read_loop : List Read → Hub → Hub
  read_loop [] h = h
  read_loop (r ∷ rs) h = read_loop rs (read_frame r.frame r.waits (r.meanwhile h))

-- The authentication timer.
unfoldable pub auth_timeout : ℕ → Hub → Hub
auth_timeout c h =
    if not (is_authenticated c h) then modify_conn c (close_conn close_auth_timeout) h else h

-- `ServeHTTP` as the hub sees it: `last` is what others do before the last read fails, and `waits`
-- while `Disconnect` waits.
unfoldable pub serve : External → Unmarshal → List Read → (Hub → Hub) → List (Hub → Hub) → Hub → Hub
serve x unmarshal reads last waits h =
    let (c, h') = register h in disconnect waits c (last (read_loop x unmarshal c reads h'))
