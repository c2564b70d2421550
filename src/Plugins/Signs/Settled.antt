-- ===== src/Plugins/Signs/Settled.antt =====
-- The signer of signature/jws over a plugin of the manager.
use notation_go.Prelude.{
  ℕ, String, Bool, Outcome, ok, err, panic, ◌≡◌, ◌≢◌, refl, ap, arith, map_err-eq-ok,
  map_err-ne-panic, or_err-ne-panic, if◌then◌else◌,
}
use notation_go.Verification.Names.{StringMap}
use notation_go.Signing.Messages.{Bytes, Descriptor, IsNil, Request, Response, command}
use notation_go.Signing.Library.{Library}
use notation_go.Signing.Timestamps.Panics.{IsLinked}
use notation_go.Signing.Calls.{Safe, Safe-lift, Safe-follow, Safe-end, Safe-ne-panic}
use notation_go.Signing.Signer.{SignOptions, SignError}
use notation_go.Signing.Signer.Exchange.{sign}
use notation_go.Signing.Signer.Panics.{IsRegistered, HasAnswers}
use notation_go.Signing.Signer.Safe.{sign-ne-panic}
use notation_go.Plugins.{Commander, MessageJson, RunError, marshal_failed}
use notation_go.Plugins.Running.{
  decode_as, decode_response, decode_failure, output, run, run_plugin, plugin_runner,
}
use notation_go.Plugins.Answers.{
  metadata_answer, key_answer, signature_answer, envelope_answer, Answers, run_plugin-Answers,
}
use notation_go.Plugins.Failures.{IsOther, Only, only_err}
use notation_go.Plugins.Signs.{sign-Only}

-- It returns a value, or an error that is not about the type of an answer.
pub data IsSettled : Outcome SignError Bytes → Type 0 where
  returned_bytes : {bytes : Bytes} → IsSettled (ok bytes)
  other_error : {e : SignError} → IsOther e → IsSettled (err e)

Only-IsSettled : (o : Outcome SignError Bytes) → Only o → o ≢ panic → IsSettled o
Only-IsSettled (ok bytes) i n = returned_bytes
Only-IsSettled (err e) (only_err i) n = other_error i
Only-IsSettled panic i n = absurd (n refl)

decode_response-ne-panic :
    (json : MessageJson) (success : Bool) (cmd : String) (out : Bytes)
    → (if success then decode_response json cmd out else err (decode_failure json out)) ≢ panic
unfolding decode_response decode_as
decode_response-ne-panic json success cmd out = ground arith

module _ {W : Type 0} (json : MessageJson) (cmder : Commander W)
    (steady : (path cmd : String)
      → (req : Bytes) → (w : W) → (cmder path cmd req w).0 ≢ panic) where
  run_plugin-Safe :
      (path : String) (req : Request) (w : W) → Safe (run_plugin json cmder path req w)
  unfolding run_plugin run output
  run_plugin-Safe path req w =
      Safe-lift _ _ (or_err-ne-panic (json.marshal_request req) marshal_failed)
        (λ (content : Bytes) _.
          Safe-follow _ (Safe-end _ (map_err-ne-panic _ _ (steady path (command req) content w)))
            (λ (r : Bytes × Bool) w'.
              Safe-end _ (decode_response-ne-panic json r.1 (command req) r.0)))

-- An answer of the right type is no nil pointer.
Answers-IsNil : {req : Request} {out : Response} → Answers req out → ¬ IsNil out
Answers-IsNil metadata_answer n = n
Answers-IsNil key_answer n = n
Answers-IsNil signature_answer n = n
Answers-IsNil envelope_answer n = n

module _ {W : Type 0} (json : MessageJson) (cmder : Commander W) (text : RunError → String)
    (name path : String) where
  plugin_runner-Answers :
      (req : Request) (w w' : W) (out : Response)
      → plugin_runner json cmder text name path req w ≡ (ok out, w')
      → Answers req out
  unfolding plugin_runner
  plugin_runner-Answers req w w' out h =
      run_plugin-Answers json cmder path req w (run_plugin json cmder path req w).1 out (λ i. (
        map_err-eq-ok _ ((run_plugin json cmder path req w).0) (ap (λ x. x.0) h) i,
        (run_plugin json cmder path req w).1,
      ))

  plugin_runner-pointed :
      (req : Request) (w : W) (out : Response)
      → (plugin_runner json cmder text name path req w).0 ≡ ok out
      → ¬ IsNil out
  plugin_runner-pointed req w out h = Answers-IsNil (
      plugin_runner-Answers req w (plugin_runner json cmder text name path req w).1 out
        (λ i. (h i, (plugin_runner json cmder text name path req w).1)))

  plugin_runner-ne-panic :
      ((p cmd : String) → (req : Bytes) → (w : W) → (cmder p cmd req w).0 ≢ panic)
      → (req : Request) → (w : W) → (plugin_runner json cmder text name path req w).0 ≢ panic
  unfolding plugin_runner
  plugin_runner-ne-panic steady req w =
      map_err-ne-panic _ _ (Safe-ne-panic (run_plugin-Safe json cmder steady path req w))

-- With a JWT library that has a method for each of the six algorithms and with SHA-256 linked, if no
-- start of a process panics, and if the authority of the options, if there is one, does not panic and
-- answers no nil pointer, Sign over a plugin of the manager returns an envelope or an error that is not
-- about the type of an answer, and does not panic, whatever the plugin writes.
pub sign-plugin_runner :
    {W : Type 0} (lib : Library) (json : MessageJson) (cmder : Commander W)
    (text : RunError → String) (name path key_id : String) (config : StringMap) (desc : Descriptor)
    (opts : SignOptions) (now : ℕ) (w : W)
    → IsRegistered lib
    → ((p cmd : String) → (req : Bytes) → (v : W) → (cmder p cmd req v).0 ≢ panic)
    → IsLinked lib.stamping
    → HasAnswers opts
    → IsSettled (sign lib (plugin_runner json cmder text name path) key_id config desc opts now w).0
sign-plugin_runner lib json cmder text name path key_id config desc opts now w registered steady
      linked answers =
    Only-IsSettled _
      (sign-Only lib (plugin_runner json cmder text name path)
        (plugin_runner-Answers json cmder text name path) key_id config desc opts now w)
      (sign-ne-panic lib registered (plugin_runner json cmder text name path)
        (plugin_runner-ne-panic json cmder text name path steady)
        (plugin_runner-pointed json cmder text name path) linked key_id config desc opts now w
        answers)
