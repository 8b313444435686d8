-- ===== src/Common/RequestId.antt =====
-- libs/repoviva-common/src/repoviva_common/request_id.py. A new id (`uuid4().hex`) is an argument.
use Prim.Native.Char.{code}
use repo_viva.Base.{
  ℕ, zero, suc, String, Bool, true, false, ◌&&◌, ◌||◌, Option, none, some, List, [], ◌∷◌, ◌++◌, leb,
  ◌==◌, if◌then◌else◌, str_eq,
}

abbrev pub id_char : ℕ → Bool
id_char c =
    (leb b'A' c && leb c b'Z')
    || (leb b'a' c && leb c b'z')
    || (leb b'0' c && leb c b'9')
    || c == b'-'

-- `[A-Za-z0-9-]{0,n}` up to the end or a final newline, where `$` matches as well.
abbrev pub matches_to_end : ℕ → String → Bool
matches_to_end n String.[] = true
matches_to_end zero (String.◌∷◌ c s) = str_eq (String.◌∷◌ c s) "\n"
matches_to_end (suc n) (String.◌∷◌ c s) =
    let rest = matches_to_end n s in (id_char (code c) && rest) || str_eq (String.◌∷◌ c s) "\n"

-- `_VALID.match`.
abbrev pub is_valid_id : String → Bool
is_valid_id String.[] = false
is_valid_id (String.◌∷◌ c s) = id_char (code c) && matches_to_end 63 s

-- The id under which `request_id_scope` runs its block, in place of the one in force before.
unfoldable pub scope_id : String → Option String → String
scope_id fresh none = fresh
scope_id fresh (some request_id) = if is_valid_id request_id then request_id else fresh

-- `_header`: the first header of that name.
abbrev pub Header : Type 0
Header = String × String

abbrev pub header : List Header → String → Option String
header [] name = none
header ((key, value) ∷ hs) name =
    let rest = header hs name in if str_eq key name then some value else rest

pub data ScopeType : Type 0 where
  http websocket lifespan : ScopeType

pub data SentType : Type 0 where
  response_start websocket_accept other_message : SentType

pub record Sent : Type 0 where
  pub type : SentType
  pub headers : List Header

-- `send_with_id`.
abbrev pub send_with_id : String → Sent → Sent
send_with_id request_id m = elim m.type [
  | response_start ↦ record m { headers = m.headers ++ ("x-request-id", request_id) ∷ [] }
  | websocket_accept ↦ record m { headers = m.headers ++ ("x-request-id", request_id) ∷ [] }
  | other_message ↦ m
]

abbrev pub send_all : (Sent → Sent) → List Sent → List Sent
send_all f [] = []
send_all f (m ∷ ms) = f m ∷ send_all f ms

-- RequestIDMiddleware: the messages that an app sends, given the request id that it runs under.
unfoldable pub middleware :
    ScopeType → List Header → String → Option String → (Option String → List Sent) → List Sent
unfolding scope_id
middleware lifespan headers fresh current app = app current
middleware http headers fresh current app =
    let request_id = scope_id fresh (header headers "x-request-id") in
    send_all (send_with_id request_id) (app (some request_id))
middleware websocket headers fresh current app =
    let request_id = scope_id fresh (header headers "x-request-id") in
    send_all (send_with_id request_id) (app (some request_id))
