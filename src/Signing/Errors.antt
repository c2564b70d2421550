-- ===== src/Signing/Errors.antt =====
-- plugin/errors.go: the error of a plugin request, and its JSON. An error value has an identity, which
-- `==` on interfaces compares, and a text. `encoding/json` is an argument: the two functions on the
-- private struct `jsonErr`.
pub mod Laws
use notation_go.Prelude.{
  ℕ, String, Bool, true, false, ◌&&◌, Option, none, some, List, [], ◌∷◌, Outcome, ok, err, str_eq,
  ◌==◌, if◌then◌else◌,
}
use notation_go.Verification.Names.{StringMap}

pub record GoError : Type 0 where
  pub identity : ℕ
  pub text : String

-- `Err` and `Metadata` may be nil.
pub record RequestError : Type 0 where
  pub code : String
  pub err : Option GoError
  pub metadata : Option StringMap

pub record JsonErr : Type 0 where
  pub code : String
  pub message : String
  pub metadata : Option StringMap

-- `e.Err == et.Err || e.Err != nil && et.Err != nil && e.Err.Error() == et.Err.Error()`
unfoldable pub same_err : Option GoError → Option GoError → Bool
same_err none none = true
same_err (some e) (some t) = if e.identity == t.identity then true else str_eq e.text t.text
same_err _ _ = false

-- `RequestError.Is`, for a target that is a `RequestError`, and for any other.
unfoldable pub is : RequestError → Option RequestError → Bool
unfolding same_err
is e none = false
is e (some et) = if str_eq e.code et.code then same_err e.err et.err else false

unfoldable pub message_of : Option GoError → String
message_of none = ""
message_of (some e) = e.text

-- What `UnmarshalJSON` reports: the error of `json.Unmarshal`, or its own.
pub data UnmarshalError : Type 0 where
  malformed incomplete : UnmarshalError

-- `errors.New(tmp.Message)`, a new identity, unless the text is empty.
unfoldable pub new_err : ℕ → String → Option GoError
new_err fresh message =
    if str_eq message "" then none else some (record { identity = fresh; text = message })

unfoldable pub is_nil : Option StringMap → Bool
is_nil none = true
is_nil (some m) = false

module _ {Json : Type 0} (marshal : JsonErr → Json) (unmarshal : Json → Option JsonErr) where
  -- `MarshalJSON`
  unfoldable pub marshal_json : RequestError → Json
  unfolding message_of
  marshal_json e =
      marshal (record { code = e.code; message = message_of e.err; metadata = e.metadata })

  unfoldable pub check_json : ℕ → Option JsonErr → Outcome UnmarshalError RequestError
  unfolding new_err is_nil
  check_json fresh none = err malformed
  check_json fresh (some tmp) =
      if str_eq tmp.code "" && str_eq tmp.message "" && is_nil tmp.metadata
      then err incomplete
      else ok (record { code = tmp.code; err = new_err fresh tmp.message; metadata = tmp.metadata })

  -- `UnmarshalJSON`, as the value that it leaves in `*e`.
  unfoldable pub unmarshal_json : ℕ → Json → Outcome UnmarshalError RequestError
  unfolding check_json
  unmarshal_json fresh data' = check_json fresh (unmarshal data')
