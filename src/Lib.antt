-- ===== src/Lib.antt =====
-- The verification library of notation-go: the signing and the verification of artifacts.
--
-- The parts, and where they are modelled:
--
-- * verification/policy.go, helpers.go, verifier.go and signature_verification_levels.go, which
--   read trust policies and, with store.go, trust stores: Verification/. Policy is the validation
--   of a document (its children prove what it accepts, rule by rule, and Policy/Validity for the
--   whole document); Scopes and Names are the helpers (Names/Parsing says which names parse);
--   Selection is the choice of a statement for an artifact; Identity is the test of a certificate
--   chain against a statement; Levels is the table of levels; Store reads a trust store. A
--   document is a list of statements, a Go map an association list, and an error the values that
--   its message names.
-- * internal/encoding/asn1, which turns BER into DER: Encoding/. Reader is a byte reader under
--   limits, Lengths the identifier and length octets, Values the values and their encoding,
--   Decoding the decoder, with proofs on any input (Decoding/Sound) and on what `Encode` wrote
--   (Decoding/RoundTrip). Takes says what a parser does to a reader.
-- * notation.go, jws.go, the package plugin and signature/jws/plugin.go, spec.go, algorithm.go
--   and the envelope of signer.go, which sign through a plugin: Signing/. Algorithms, Metadata,
--   Errors, Config, Certificates and Messages are the data and their checks; Signer and
--   Signer/Exchange are `pluginSigner`, a state transformer over the state of the plugins
--   (Calls); Signer/Checks, Signer/Verified, Signer/Panics and Signer/Safe prove what it returns.
--   Signing/Builtin is the signer that has the key itself, a runner without state
--   (Builtin/Required has what it asks of its arguments, and Builtin/Succeeds proves that it
--   signs). Signing/Verifier is the verifier of envelopes (verifier.go), and Signing/Timestamps
--   the time stamp of a signature, as both sides use it; Verifier/Accepted, Verifier/Authentic
--   and Timestamps/Stamped prove what they accept, and Timestamps/Panics, with Cms/Panics of
--   Timestamp/, when stamping does not panic.
-- * internal/crypto and crypto/timestamp: Timestamp/. Oids has the identifiers and the hashes,
--   Cms the signed data of cms.go and signed.go (Cms/Signers is the loop of `Verify`, whose
--   rounds are in Cms/Rounds; Cms/Vouched and Cms/Verified prove what it means that it succeeds
--   or fails), Tokens the tokens of token.go, Requests the messages of request.go and
--   response.go, and Http the client of http.go.
-- * The plugin manager of plugin/manager/manager.go: Plugins. Running has the runs of a plugin
--   and the operations of `Manager`, over a file system and a commander with a state of its own;
--   Answers proves the types of the answers, and Signs that the signer of signature/jws accepts
--   them (Signs/Settled).
-- * The client of registry/repository.go: Registry, over a remote registry with a state of its
--   own; Registry/Lookup and Registry/Signatures prove what `Lookup` finds.
-- * The package crypto/jwsutil: Serialization, with the compact form and the choice between the
--   JSON forms.
-- * Prelude has what they share: Boolean tests, lists, texts, and the outcome of a Go call, which
--   is a value, an error or a run-time panic.
--
-- Pointers are modelled where they matter: Selection keeps the memory that `deepCopy` writes to.
-- Texts are sequences of characters, and the scopes and names that are split are split at ASCII
-- characters. An `int` has 64 bits.
--
-- Fuel: `decode` calls itself for the members of a value. ConvertToDER gives it 3 * n + 1 for n
-- bytes of input, three calls for each byte, since a value has at least two. The loop over a high
-- tag number takes a byte each time.
--
-- Arguments, since their code is elsewhere: the parser of names of go-ldap, encoding/json,
-- encoding/base64, encoding/asn1, encoding/hex, crypto/x509, the hashes, golang-jwt, go-digest,
-- oras, notation-core-go, the operating system, the clock, and the plugins. A certificate is what
-- the part that reads it reads of it.
--
-- A Go map that is walked over (the signers that were verified) is a list in the order of
-- insertion. A time is an integer that counts from the zero time of Go, and a duration has 64
-- bits.
--
-- Not modelled: the authority of the tests in crypto/timestamp, which only the tests use; the
-- start of processes in plugin/manager; the texts of errors; Verify of verification/verifier.go,
-- whose body is a comment; and the packages that hold constants or paths only.
pub mod Prelude
pub mod Verification
pub mod Encoding
pub mod Signing
pub mod Timestamp
pub mod Serialization
pub mod Plugins
pub mod Registry
