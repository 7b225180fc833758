-- ===== src/Client/Transport.antt =====
-- How src/s3_client.rs reaches its storage. flurl, the channels, the hashes and the XML reader are not
-- the client's code: they are the fields of `Environment`. What an operation returns and does to the
-- outside, requests that go out and lines that are printed, is passed along as a state.
use my_s.Base.{ℕ, List, Option, Bytes, Result, ok, err}
use my_s.Error.{S3Error, fl_url_error}
use my_s.Signing.{UrlBuilder}
use my_s.Xml.Walker.{XmlReader}
use my_s.Client.Answers.{Answer}

-- `flurl::FlUrl`, up to where it is sent. A timeout is in milliseconds.
pub record FlUrl (F : Type 0) : Type 0 where
  pub create : Bytes → F
  pub append_path_segment : F → Bytes → F
  pub append_query_param : F → Bytes → Option Bytes → F
  pub append_raw_ending_to_url : F → Bytes → F
  pub set_timeout : F → ℕ → F
  pub with_retries : F → ℕ → F
  pub with_header : F → Bytes → Bytes → F
  pub get_url_builder : F → Result UrlBuilder Bytes

-- `flurl::body::HttpRequestBody`.
pub data HttpRequestBody : Type 0 where
  from_raw_data : Bytes → Option Bytes → HttpRequestBody
  empty : HttpRequestBody

-- The calls of flurl that send. `B` is a body that is streamed from a channel.
pub data Sent (F B : Type 0) : Type 0 where
  get : F → Sent F B
  head : F → Sent F B
  delete : F → Sent F B
  put : F → HttpRequestBody → Sent F B
  put_request_streamed : F → B → ℕ → Sent F B

-- `answer` and `now` may depend on every request that went out before, the latest first. The calls
-- `.._with_debug` also write down the request that they send.
pub record Environment (F B E R T N : Type 0) : Type 0 where
  pub fl_url : FlUrl F
  pub answer : List (Sent F B) → Sent F B → Result (Answer E) E
  pub answer_with_debug : List (Sent F B) → Sent F B → Result (Answer E) E × Bytes
  pub now : List (Sent F B) → Bytes
  pub hmac : Bytes → Bytes → Bytes
  pub sha256 : Bytes → Bytes
  pub hex_encode : Bytes → Bytes
  pub xml : XmlReader R T N

-- What went out so far, and what was printed, the latest first.
pub record Outside (F B : Type 0) : Type 0 where
  pub sent : List (Sent F B)
  pub console : List Bytes

abbrev pub Io : Type 0 → Type 0 → Type 0 → Type 0 → Type 0
Io F B E A = Outside F B → Result A (S3Error E) × Outside F B

abbrev pub then_run :
    {F B E A C : Type 0}
    → Result A (S3Error E) × Outside F B
    → (A → Io F B E C)
    → Result C (S3Error E) × Outside F B
then_run (ok a, w) f = f a w
then_run (err e, w) f = (err e, w)

infixl 5 ◌>>=◌ ◌>>◌
abbrev pub ◌>>=◌ : {F B E A C : Type 0} → Io F B E A → (A → Io F B E C) → Io F B E C
◌>>=◌ m f w = then_run (m w) f

abbrev pub ◌>>◌ : {F B E C : Type 0} → Io F B E (Unit {0}) → Io F B E C → Io F B E C
m >> k = m >>= λ _. k

-- A result that needs nothing from outside.
abbrev pub answered : {F B E A : Type 0} → Result A (S3Error E) → Io F B E A
answered r w = (r, w)

-- The `?` on a result of flurl.
unfoldable pub lifted : {E A : Type 0} → Result A E → Result A (S3Error E)
lifted (ok a) = ok a
lifted (err e) = err (fl_url_error e)
