-- ===== src/Client/RunTests.antt =====
-- Operations of src/s3_client.rs, run over a url builder that keeps what it was given.
use my_s.Base.{ℕ, ◌≡◌, refl, [], none, some, Bytes, codes, decimal, ok, arith}
use my_s.Error.{unexpected_status_code}
use my_s.Error.Display.{display}
use my_s.Region.{as_str, from_str, is_us_east_1, no_region}
use my_s.Xml.Walker.{XmlReader, read_node_text}
use my_s.Query.Canonical.{pairs}
use my_s.Client.Answers.{create_bucket_configuration, parse_bucket_location}
use my_s.Client.Send.{debug_to_console}
use my_s.Client.Payloads.{S3ListObjectsRequest, list_query}
use my_s.Client.Requests
use my_s.Client.Calls.{perform, delete_file, done}
use my_s.Client.Signed.{SentOne}
use my_s.Client.Sends.Perform.{perform-SentOne}
use my_s.Client.Console.{perform-debug_to_console}
use my_s.Client.Places.{parse_bucket_location-create}
use my_s.Client.ListQuery.{decoded, parameters, list_query-parameters}
use my_s.Client.Setting.{Error, env, s3, start}

test_delete_file : (perform env s3 (delete_file (codes "b") (codes "k")) start).0 ≡ ok done
unfolding perform Requests.delete_file
test_delete_file = refl

perform-SentOne_example :
    SentOne env s3 [] (perform env s3 (delete_file (codes "b") (codes "k")) start)
perform-SentOne_example = perform-SentOne env s3 (delete_file (codes "b") (codes "k")) start

perform-debug_to_console_example :
    ((perform env (debug_to_console s3) (delete_file (codes "b") (codes "k")) start).0
      ≡ (perform env s3 (delete_file (codes "b") (codes "k")) start).0)
    × ((perform env (debug_to_console s3) (delete_file (codes "b") (codes "k")) start).1.sent
        ≡ (perform env s3 (delete_file (codes "b") (codes "k")) start).1.sent)
    × ((perform env s3 (delete_file (codes "b") (codes "k")) start).1.console ≡ [])
perform-debug_to_console_example =
    perform-debug_to_console env s3 (λ before r. refl) refl (delete_file (codes "b") (codes "k"))
      start

-- A folder whose name holds a space and an ampersand.
abbrev request : S3ListObjectsRequest
request = record {
  prefix = some (codes "a &");
  delimiter = some (codes "/");
  continuation_token = none;
  max_keys = some 7;
}

test_list_query : list_query request ≡ codes "list-type=2&prefix=a%20%26&delimiter=%2F&max-keys=7"
unfolding list_query decimal
test_list_query = refl

list_query-parameters_example : decoded (pairs (list_query request)) ≡ parameters request
list_query-parameters_example =
    list_query-parameters request (omega arith, (omega arith, (omega arith, tt))) (omega arith, tt)
      tt

-- A reader that finds the element of a location, its text, and its end.
abbrev located_xml : XmlReader ℕ (ℕ × ℕ) ℕ
located_xml = record {
  from_slice = λ body. ok 0;
  find_the_open_node = λ r path. ok (some (0, 19), r);
  read_next_tag = λ r. ok (some (24, 45), r);
  find_any_of_these_nodes_inside_parent = λ r parent names. ok (none, r);
  read_the_whole_node = λ r node. ok (0, r);
  start_pos = λ t. t.0;
  end_pos = λ t. t.1;
  level = λ t. 0;
  name = λ t. [];
  raw = λ t. [];
  get_inner_content = λ n. none;
  get_node_name = λ n. [];
}

abbrev location : Bytes
location = codes "<LocationConstraint>fsn1</LocationConstraint>"

location_text :
    read_node_text located_xml location (codes "LocationConstraint") ≡ some (codes "fsn1")
unfolding read_node_text
location_text = refl

parse_bucket_location-create_example :
    parse_bucket_location {E = Error} located_xml location ≡ ok (from_str (codes "fsn1"))
unfolding create_bucket_configuration from_str as_str is_us_east_1 no_region
parse_bucket_location-create_example =
    parse_bucket_location-create Error located_xml (codes "fsn1") (codes "fsn1") location refl refl
      location_text

test_display :
    display {E = Error} (λ e. []) (unexpected_status_code 503 none (codes "busy"))
    ≡ codes "Status Code: 503. Err: busy"
unfolding display decimal
test_display = refl
