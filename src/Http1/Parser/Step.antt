-- ===== src/Http1/Parser/Step.antt =====
-- src/xzero/http/http1/Parser.cc: what one round of the loop of `parseFragment` does.
use x.Base.{List, [], ◌∷◌, ℕ, ◌==◌, if◌then◌else◌, Outcome, ok, raise, Fault}
use x.Http1.State.{
  Parser, State, protocol_error, Event, HttpVersion, unknown, version_0_9, version_1_0, version_1_1,
  begin_request, begin_response, bad_request, become,
}

-- The end of a round: on to the next one, or out of the loop by `goto done`; the number is what
-- `nextChar` was called for, and the events are what the listener is told. `throws` is the
-- exception `HttpVersionNotSupported`, and `fails` a step that has no meaning in C++.
pub data Round : Type 0 where
  goes : ℕ → Parser → List Event → Round
  stops : ℕ → Parser → List Event → Round
  throws : ℕ → Parser → Round
  fails : Fault → Round

abbrev pub go : ℕ → Parser → Round
go n p = goes n p []

-- `onProtocolError(HttpStatus::BadRequest); state_ = PROTOCOL_ERROR;`
abbrev pub refuse : Parser → Round
refuse p = goes 0 (become p protocol_error) (bad_request ∷ [])

-- One character that has to be there, and the state after it.
abbrev pub expect : ℕ → State → Parser → ℕ → Round
expect c next p b = if b == c then go 1 (become p next) else refuse p

-- A round that goes on with a number that was read.
abbrev pub with_number : Outcome ℕ → (ℕ → Round) → Round
with_number (ok n) k = k n
with_number (raise f) k = fails f

unfoldable pub make_version : ℕ → ℕ → HttpVersion
make_version major minor =
    if major == 0
    then (if minor == 9 then version_0_9 else unknown)
    else if major == 1
    then (if minor == 0 then version_1_0 else if minor == 1 then version_1_1 else unknown)
    else unknown

-- `onMessageBegin` of a request and of a response, at the end of a round that took `n` characters.
unfoldable pub begins : ℕ → Parser → HttpVersion → Event → Round
begins n p unknown e = throws n p
begins n p _ e = goes n p (e ∷ [])

unfoldable pub begin_with_request : ℕ → Parser → Round
unfolding make_version begins
begin_with_request n p =
    let v = make_version p.version_major p.version_minor in
    begins n p v (begin_request p.method p.entity v)

unfoldable pub begin_with_response : ℕ → Parser → Round
unfolding make_version begins
begin_with_response n p =
    let v = make_version p.version_major p.version_minor in
    begins n p v (begin_response v p.code p.reason)
