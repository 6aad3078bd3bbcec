-- ===== src/Keryx/Publish/Tests.antt =====
-- A request that is sent, accepted once, and refused when it comes again.
use doxajs.Base.{
  ℕ, String, Option, none, some, List, [], ◌∷◌, arith, ◌≡◌, ◌≢◌, refl, str_eq, if◌then◌else◌,
}
use doxajs.Keryx.Publish.{
  Seconds, after_epoch, Credentials, Request, Entry, accepted, named, verify, headers,
}
use doxajs.Keryx.Publish.Replay.{Event, run, verify-once}
use doxajs.Keryx.Publish.Headers.{verify-headers}

abbrev read : String → Option Seconds
read s = if str_eq s "100" then some (after_epoch 100) else none

abbrev print : ℕ → String
print n = "100"

abbrev sign : String → String → String → String → String → String → String
sign secret m p t n b = "signed"

abbrev credentials : Credentials
credentials = record { key = "key"; secret = "secret" }

abbrev sent_request : Request
sent_request = record {
  method = "POST";
  path = "/publish";
  key = some "key";
  timestamp = some "100";
  nonce = some "one";
  provided = some "signed";
}

abbrev old : List Entry
old = named "zero" 20 ∷ []

accepted_first : (verify read sign credentials 60 old 130500 sent_request "{}").verdict ≡ accepted
unfolding verify doxajs.Keryx.Publish.knows doxajs.Keryx.Publish.prune_nonces
accepted_first = refl

abbrev between : List (Event read sign credentials 60)
between = record { clock = 130600; request = sent_request; body = "{}" } ∷ []

verify-once_example :
    (verify read sign credentials 60
      (run read sign credentials 60
        (verify read sign credentials 60 old 130500 sent_request "{}").nonces
        between)
      140000
      sent_request
      "{}").verdict
    ≢ accepted
verify-once_example =
    verify-once read sign credentials 60 old 130500 140000 sent_request sent_request "{}" "{}"
      between accepted_first (omega arith, tt) refl refl

verify-headers_example :
    (verify read sign credentials 60 old 130000
      (headers read sign credentials 60 100500 print "one" "POST" "/publish" "{}")
      "{}").verdict
    ≡ accepted
unfolding doxajs.Keryx.Publish.knows
verify-headers_example =
    verify-headers read sign credentials 60 old 100500 130000 print "one" "POST" "/publish" "{}"
      refl refl refl refl refl refl refl
