-- ===== src/Client/Setting.antt =====
-- A storage, a url builder that keeps what it was given, and a client of src/s3_client.rs, for runs.
use my_s.Base.{ℕ, false, List, [], ◌∷◌, none, Bytes, codes, ok}
use my_s.Region.{hetzner_fsn1}
use my_s.Xml.Walker.{XmlReader}
use my_s.Client.Answers.{Answer}
use my_s.Client.Transport.{FlUrl, Environment, Outside}
use my_s.Client.Send.{S3Client}

-- A url is its parts, the last first.
abbrev pub Url : Type 0
Url = List Bytes

abbrev pub Error : Type 0
Error = Unit {0}

abbrev pub xml : XmlReader ℕ ℕ ℕ
xml = record {
  from_slice = λ body. ok 0;
  find_the_open_node = λ r path. ok (none, r);
  read_next_tag = λ r. ok (none, r);
  find_any_of_these_nodes_inside_parent = λ r parent names. ok (none, r);
  read_the_whole_node = λ r node. ok (node, r);
  start_pos = λ t. 0;
  end_pos = λ t. 0;
  level = λ t. 0;
  name = λ t. [];
  raw = λ t. [];
  get_inner_content = λ n. none;
  get_node_name = λ n. [];
}

abbrev pub builder : FlUrl Url
builder = record {
  create = λ endpoint. endpoint ∷ [];
  append_path_segment = λ u part. part ∷ u;
  append_query_param = λ u name value. name ∷ u;
  append_raw_ending_to_url = λ u text. text ∷ u;
  set_timeout = λ u timeout. u;
  with_retries = λ u retries. u;
  with_header = λ u name value. u;
  get_url_builder = λ u.
      ok (record { get_host_port = codes "storage"; get_path = codes "/b/k"; get_query = none });
}

-- Every request is answered with a 204.
abbrev pub no_content : Answer Error
no_content = record {
  status_code = 204;
  content_length = none;
  content_type = none;
  body = ok [];
  get_body = ok tt;
}

abbrev pub env : Environment Url ℕ Error ℕ ℕ ℕ
env = record {
  fl_url = builder;
  answer = λ before r. ok no_content;
  answer_with_debug = λ before r. (ok no_content, codes "REQUEST");
  now = λ before. codes "2012-02-15T09:08:07+00:00";
  hmac = λ key text. text;
  sha256 = λ text. [];
  hex_encode = λ text. text;
  xml = xml;
}

abbrev pub s3 : S3Client
s3 = record {
  access_key = codes "access";
  secret_key = codes "secret";
  region = hetzner_fsn1;
  endpoint = codes "https://storage";
  debug = false;
}

abbrev pub start : Outside Url ℕ
start = record { sent = []; console = [] }
