-- ===== src/Client/Tests.antt =====
-- Answers and retries of src/s3_client.rs at concrete inputs.
use my_s.Base.{
  ℕ, suc, zero, ◌≤◌, ◌≡◌, ◌↔◌, ◌⊎◌, refl, true, false, [], none, some, codes, Result, ok, err,
}
use my_s.Error.{
  S3Error, IoError, FlUrlErrorView, FlUrlVariant, is_retryable, status_is_retryable,
  is_key_not_found, unexpected_status_code, upload_producer_failed, message, not_found,
}
use my_s.Upload.State.{initial}
use my_s.Xml.Walker.{XmlReader, read_node_text}
use my_s.Client.Answers.{detect_error}
use my_s.Client.Classify.{repeats, detect_error-is_retryable, detect_error-key_not_found}
use my_s.Client.Retries.{
  upload_streamed_with_retries, upload_with_writer_with_retries,
  upload_streamed_with_retries-settles, upload_with_writer_with_retries-producer, AllFail, Ends,
}

abbrev Error : Type 0
Error = Unit {0}

abbrev view : FlUrlErrorView Error
view = record { is_timeout = λ e. false; variant = λ e. FlUrlVariant.other_variant }

-- A reader that finds no node.
abbrev xml : XmlReader ℕ ℕ ℕ
xml = record {
  from_slice = λ body. ok 0;
  find_the_open_node = λ r path. ok (none, r);
  read_next_tag = λ r. ok (none, r);
  find_any_of_these_nodes_inside_parent = λ r parent names. ok (none, r);
  read_the_whole_node = λ r node. ok (node, r);
  start_pos = λ t. 0;
  end_pos = λ t. 0;
  level = λ t. 0;
  name = λ t. [];
  raw = λ t. [];
  get_inner_content = λ n. none;
  get_node_name = λ n. [];
}

detect_error-is_retryable_example :
    is_retryable view (detect_error xml 503 (codes "<html>"))
    ≡ repeats 503 (read_node_text xml (codes "<html>") (codes "Error/Code"))
detect_error-is_retryable_example = detect_error-is_retryable view xml 503 (codes "<html>")

abbrev missing : ℕ
missing = 404

detect_error-key_not_found_example :
    (is_key_not_found (detect_error {E = Error} xml missing []) ≡ true) ↔ (
      (read_node_text xml [] (codes "Error/Code") ≡ some (codes "NoSuchKey"))
      ⊎ ((read_node_text xml [] (codes "Error/Code") ≡ none) × (missing ≡ 404)))
detect_error-key_not_found_example = detect_error-key_not_found Error xml missing []

-- The first two attempts meet a 503.
abbrev attempt : ℕ → Result (Unit {0}) (S3Error Error)
attempt zero = err (unexpected_status_code 503 none [])
attempt (suc zero) = err (unexpected_status_code 503 none [])
attempt (suc (suc n)) = ok tt

test_upload_streamed_with_retries : upload_streamed_with_retries view 5 attempt ≡ some (ok tt, 3)
unfolding upload_streamed_with_retries status_is_retryable
test_upload_streamed_with_retries = refl

upload_streamed_with_retries-settles_example :
    (n : ℕ) × (upload_streamed_with_retries view 5 attempt ≡ some (attempt n, suc n))
    × (n ≤ 5)
    × AllFail view attempt n
    × Ends view 5 n (attempt n)
upload_streamed_with_retries-settles_example = upload_streamed_with_retries-settles view 5 attempt

abbrev lost_file : IoError Error
lost_file = message not_found (codes "no such file")

upload_with_writer_with_retries-producer_example :
    upload_with_writer_with_retries view 5 attempt (λ n. ok (err lost_file)) (λ n. initial 3)
    ≡ some (err (upload_producer_failed lost_file), 1)
unfolding initial
upload_with_writer_with_retries-producer_example =
    upload_with_writer_with_retries-producer view 5 attempt (λ n. ok (err lost_file))
      (λ n. initial 3) lost_file refl refl
