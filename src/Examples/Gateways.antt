-- ===== src/Examples/Gateways.antt =====
-- A grant with one argument, a registry with two connections, and calls through the gateway.
use microagency.Base.{
  ℕ, zero, suc, refl, ap, inl, Bool, true, false, Option, none, some, List, [], arith, is_some,
  length, any, all, Text, codes, text_eq, cut_at, ◌+◌, ◌≡◌, ◌↔◌, ◌⊎◌, ◌∷◌, ◌++◌,
}
use microagency.Base.Map
use microagency.Mcp.Packages.{Packages}
use microagency.Mcp.Json.{Json, member_at, object, str, member_of, last_member}
use microagency.Mcp.Grant.{OperationGrant, EvaluatedGrant, ArgumentGrant}
use microagency.Mcp.Grant.Validate.{validate_operation_grant}
use microagency.Mcp.Grant.Evaluate.{
  escape_token, evaluate_operation_grant, granted, is_owner, is_live,
}
use microagency.Mcp.Grant.Pointers.{Under, here, in_object, is_digit}
use microagency.Mcp.Grant.Governed.{IsChecked, evaluate-IsChecked}
use microagency.Mcp.Ledger.{Ledger, Crypto, synced, missing, Outcome, append_decision_locked}
use microagency.Auth.Identity.{principal_key, escape_key_part, unescape_key_part}
use microagency.Mcp.Gateway.{Tool, Conn, Listing, Upstream, Registry, advisory}
use microagency.Mcp.Gateway.Operations.{new_upstream}
use microagency.Mcp.Gateway.Invoke.{
  Context, Reply, replied, State, Crossing, Answer, is_governed, invoke_upstream,
}
use microagency.Mcp.Gateway.Gates.{IsReached, invoke-IsReached}
use microagency.Mcp.Gateway.Hidden.{without, hidden_answer}
use microagency.Mcp.Gateway.SelfService.{Flow, commit_self_service_oauth}
use microagency.Mcp.Gateway.Runs.{Op, revoke, disable, run, revocations}
use microagency.Mcp.Gateway.Generations.{IsAfter, run-IsAfter, commit_self_service_stale}

-- Numbers in unary.
ones : ℕ → Text
ones zero = []
ones (suc n) = b'1' ∷ ones n

abbrev packages : Packages
packages = record {
  parse_url = λ t. none;
  is_ip = λ t. false;
  lower = λ t. t;
  trim_space = λ t. t;
  join_host_port = λ host port. host ++ (b':' ∷ port);
  clean_path = λ t. t;
  encode_query = λ q. [];
  pattern_compiles = λ t. true;
  pattern_matches = λ t u. true;
  parse_time = λ t. some 100;
  itoa = ones;
  atoi = λ t. some (length t);
  sort = λ ts. ts;
  sha256 = λ t. t;
  runes = λ t. none;
  is_format = λ r. false;
  equal_fold = text_eq;
}

atoi-ones : (n : ℕ) → some (length (ones n)) ≡ some n
unfolding ones
atoi-ones zero = refl
atoi-ones (suc n) =
    ap (λ (o : Option ℕ). elim o [ none ↦ none | some k ↦ some (suc k) ]) (atoi-ones n)

ones-digits : (n : ℕ) → all is_digit (ones n) ≡ true
unfolding ones all
ones-digits zero = refl
ones-digits (suc n) = ones-digits n

abbrev rule : ArgumentGrant
rule = record {
  pointer = codes "/box";
  required = true;
  values = codes "inbox" ∷ [];
  pattern = [];
  max_bytes = 0;
  url_target = [];
}

abbrev reading : OperationGrant
reading = record {
  version = codes "microagency.grant/v1";
  id = codes "g1";
  connection = codes "mail";
  tool = codes "get";
  effect = codes "read";
  principal = codes "i#ann";
  campaign = codes "c";
  expires_at = [];
  arguments = rule ∷ [];
  resources = [];
  url_targets = [];
  max_requests = 2;
  max_bytes = 100;
  max_response_bytes = 30;
  rate = record { requests = 5; window_s = 60 };
  metadata = [];
  allow_shared = true;
  high_assurance = true;
}

abbrev decoded : Json
decoded = object (member_of (codes "box") (str (codes "inbox")) last_member)

abbrev decode : Text → Option Json
decode args = some decoded

abbrev marshal : OperationGrant → Text
marshal g = g.id

abbrev authority : EvaluatedGrant
authority = record {
  grant = reading;
  digest = codes "g1";
  resource_ids = [];
  shared_writable_ids = [];
}

valid : validate_operation_grant packages reading (codes "mail") ≡ some reading
unfolding validate_operation_grant text_eq unescape_key_part escape_key_part
valid = refl

evaluated :
    evaluate_operation_grant packages decode marshal reading
      (codes "i#ann")
      (codes "c")
      (codes "get")
      (codes "{}")
      7
    ≡ granted authority
unfolding evaluate_operation_grant text_eq
evaluated = refl

inbox : Under packages [] decoded (codes "/box") (str (codes "inbox"))
unfolding escape_token member_at text_eq
inbox = in_object (codes "box") here refl

evaluate-IsChecked_example :
    (is_owner reading (codes "i#ann") (codes "c") ≡ true)
    × (codes "get" ≡ reading.tool)
    × (is_live packages reading 7 ≡ true)
    × ((r : Text) × (w : Json) × Under packages [] decoded r w
        × Under packages r w (codes "/box") (str (codes "inbox"))
        × IsChecked packages decoded reading r w)
evaluate-IsChecked_example =
    evaluate-IsChecked packages decode marshal atoi-ones ones-digits reading reading (codes "mail")
      (codes "i#ann") (codes "c") (codes "get") (codes "{}") 7 authority decoded (codes "/box")
      (str (codes "inbox")) valid evaluated refl inbox tt

abbrev toy : Crypto
toy = record {
  sha256 = λ t. t;
  marshal_decision = λ n e. n ∷ e.grant_digest;
  marshal_anchor = λ n h. n ∷ h;
  line_size = λ l. length l.hash + 500;
  sign = λ m. some m;
  verify = text_eq;
}

abbrev empty_ledger : Ledger
empty_ledger = record {
  path = true;
  signer = true;
  secrets = true;
  usage = [];
  sequence = 0;
  head = [];
  load_err = false;
  file = none;
  anchor = missing;
}

abbrev client : Conn
client = record { handle = 1; endpoint = codes "https://mail.example" }

abbrev get_tool : Tool
get_tool = record { name = codes "get"; description = []; input_schema = []; annotations = none }

abbrev listing : Listing
listing = record { tools = get_tool ∷ []; suggestion = none }

-- A shared connection with the grant, and one of another principal without grants.
abbrev mail : Upstream
unfolding new_upstream
mail = record (new_upstream client listing true (codes "preloaded")) { grants = reading ∷ [] }

abbrev diary : Upstream
unfolding new_upstream
diary = record (new_upstream client listing true (codes "preloaded")) { owner = codes "i#bob" }

abbrev registry : Registry
registry = record { conns = (codes "mail", mail) ∷ (codes "diary", diary) ∷ []; usage = [] }

abbrev state : State
state = record { registry = registry; ledger = empty_ledger; runs = []; crossings = [] }

abbrev ann : Context
ann = record {
  issuer = codes "i";
  subject = codes "ann";
  campaign = codes "c";
  email = [];
  program = none;
}

abbrev written : Outcome
written = record { append = synced; save = true }

abbrev no_gaps : Tool → Text → Bool
no_gaps t args = false

abbrev answer : Reply
answer = replied (codes "{}") true

abbrev invoke : Bool → Text → Text → State → State × Answer
invoke high = invoke_upstream packages no_gaps ann answer 7 toy decode marshal high written

-- The call is handed over, and its answer is delivered.
invoke_mail : length (invoke true (codes "mail__get") (codes "{}") state).0.crossings ≡ 1
unfolding invoke_upstream Map.get text_eq mail escape_key_part append_decision_locked
invoke_mail = refl

invoke-IsReached_example :
    let t = (invoke true (codes "mail__get") (codes "{}") state).0 in
    (t.crossings ≡ [])
    ⊎ ((x : Crossing) × (t.crossings ≡ x ∷ [])
        × IsReached packages no_gaps ann answer 7 toy decode marshal true written
            (codes "mail__get")
            (codes "{}")
            state
            x)
invoke-IsReached_example =
    invoke-IsReached packages no_gaps ann answer 7 toy decode marshal true written
      (codes "mail__get") (codes "{}") state

hidden_answer_example :
    ((invoke false (codes "diary__get") (codes "{}") state).1
      ≡ (invoke false (codes "diary__get") (codes "{}") (
          without packages no_gaps ann answer 7 toy decode marshal false written
            (codes "diary")
            state)).1)
    ↔ (is_governed false diary ≡ false)
unfolding cut_at Map.get text_eq diary principal_key escape_key_part
hidden_answer_example =
    hidden_answer packages no_gaps ann answer 7 toy decode marshal false written
      (codes "diary__get") (codes "{}") (codes "diary") (codes "get") diary state refl refl
      (inl refl)

-- A revocation between the start of a sign-in and its commit.
abbrev between : List Op
between = disable (codes "diary") ∷ revoke (codes "diary") ∷ []

run-IsAfter_example :
    ((v : Upstream) × (Map.get (codes "diary") (run packages advisory between registry).conns
        ≡ some v)
      × IsAfter (revocations (codes "diary") between) diary v)
unfolding Map.get text_eq diary any
run-IsAfter_example =
    run-IsAfter packages advisory (codes "diary") between registry diary refl (omega arith) refl

-- The sign-in that ann began to renew the connection.
abbrev flow : Flow
flow = record {
  name = codes "diary";
  discover = false;
  reauth = true;
  read_only = false;
  owner = diary.owner;
  template = codes "notes";
  template_version = 1;
  label = [];
  auth_generation = 0;
}

commit_self_service_stale_example :
    let after = run packages advisory between registry in
    let commit =
      commit_self_service_oauth flow
        (some (record { disabled = false; version = 1 }))
        client
        (some listing)
        after in
    (commit.0 ≡ after) × (is_some commit.1 ≡ true)
unfolding Map.get text_eq diary any revocations
commit_self_service_stale_example =
    commit_self_service_stale packages advisory (codes "diary") between registry diary flow
      (some (record { disabled = false; version = 1 })) client (some listing) refl (omega arith)
      refl refl refl refl (omega arith) (omega arith)
