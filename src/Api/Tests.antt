-- ===== src/Api/Tests.antt =====
-- Tests of the API's handlers over a small runtime, and the theorems about them at concrete inputs.
use ferrobox.Api.Lifecycle.Deletion.{Deletes, delete_internal_lem, deletion}
use ferrobox.Prelude.{
  ℕ, ◌≡◌, refl, ap, ◌↔◌, Bool, true, false, Option, none, some, List, [], ◌∷◌, ◌++◌, arith, Text,
  Bytes, codes, lookup, remove, insert, ok, err,
}
use ferrobox.Api.Lifecycle.{
  list_directory, read_file, write_file, WriteFileBody, execute_command, ExecuteCommandRequest,
  get_sandbox, transition, pause_sandbox, resume_sandbox, delete_sandbox, delete_internal, reap,
  CreateSandboxRequest, CreateSandboxResponse, create_sandbox, register_sandbox,
}
use ferrobox.Prelude.Exec.{Exec}
use ferrobox.Api.Lifecycle.Tokens.{create-IsAdmitted}
use ferrobox.Core.Spec.{validate_spec, disabled}
use ferrobox.Api.Snapshots.{
  get_snapshot, verify_snapshot, restore_snapshot, clone_snapshot, delete_snapshot,
  rollback_snapshot, cut_page, page, page_start, id_at,
}
use ferrobox.Api.Snapshots.Guards.{snapshot_refused_changes_nothing}
use ferrobox.Api.Auth.{authorize_snapshot, validate_ttl, bearer, authorize, authorize_running}
use ferrobox.Api.Types.{
  api_conflict, Env, AppState, SandboxRecord, api_not_found, api_expired, api_unauthorized,
}
use mathlib.Core.List.{reverse}
use ferrobox.Core.Error.{RuntimeError, unsupported, unavailable}
use ferrobox.Core.State.{
  SandboxState, can_transition_to, deleting, is_paused, is_running, paused, running,
}
use ferrobox.Core.Exec.{SnapshotHandle}
use ferrobox.Core.Runtime.{SandboxRuntime}
use ferrobox.Api.Auth.Laws.{authorize_iff, IsAdmitted}
use ferrobox.Api.Lifecycle.Evolution.{Follows}
use ferrobox.Api.Lifecycle.History.{
  LifecycleCall, pauses, resumes, expires, serve_all, serve_all-Follows,
}
use ferrobox.Api.Lifecycle.Outcomes.{
  IsSettled, pause-IsSettled, resume-IsSettled, refused_changes_nothing,
}
use ferrobox.Api.Snapshots.Pages.{follow, follow-eq-all}

-- A runtime whose state says whether its next call succeeds.
abbrev answers : {A : Type 0} → A → Exec Bool RuntimeError A
answers a true = (ok a, true)
answers a false = (err unavailable, false)

abbrev refuses : {A : Type 0} → Exec Bool RuntimeError A
refuses s = (err unsupported, s)

abbrev switch : SandboxRuntime Bool
switch = record {
  create = λ spec. refuses;
  execute = λ id request. refuses;
  signal = λ id request. refuses;
  write = λ id request. refuses;
  read = λ id request. refuses;
  list = λ id path. refuses;
  pause = λ id. answers tt;
  resume = λ id. answers tt;
  create_snapshot = λ id request. refuses;
  list_snapshots = λ id. refuses;
  get_snapshot = λ id. refuses;
  verify_snapshot = λ id. refuses;
  restore_snapshot = λ id. refuses;
  clone_snapshot = λ id count. refuses;
  rollback_snapshot = λ id snapshot. refuses;
  delete_snapshot = λ id. refuses;
  delete = λ id. answers tt;
}

-- Every text is the identifier 7, and a digest is the token backwards.
abbrev noon : Env
noon = record {
  now = 12;
  unix_ms = 12000;
  parse_uuid = λ text. some 7;
  sha256 = reverse;
  audit_writes = λ e. true;
}

abbrev box : SandboxState → SandboxRecord
box state = record {
  token = codes "cba";
  state = state;
  node_id = codes "n";
  expires_at = 20;
  expires_at_unix_ms = 20000;
}

abbrev holding : Bool → SandboxState → AppState Bool
holding works state = record {
  world = works;
  records = (7, box state) ∷ [];
  snapshots = [];
  audit = [];
}

abbrev abc : Option Text
abc = some (codes "Bearer abc")

admitted : authorize noon 7 abc (holding true running) ≡ ok (box running)
unfolding authorize bearer lookup
admitted = refl

refusals :
    (authorize noon 7 none (holding true running) ≡ err api_unauthorized)
    × (authorize noon 7 (some (codes "Bearer abd")) (holding true running) ≡ err api_unauthorized)
    × (authorize noon 8 abc (holding true running) ≡ err api_not_found)
    × (authorize (record noon { now = 20 }) 7 abc (holding true running) ≡ err api_expired)
unfolding authorize bearer lookup
refusals = (refl, refl, refl, refl)

authorize_iff_example :
    (authorize noon 7 abc (holding true running) ≡ ok (box running))
    ↔ IsAdmitted noon 7 abc (holding true running) (box running)
authorize_iff_example = authorize_iff noon 7 abc (holding true running) (box running)

admitted_running : authorize_running noon 7 abc (holding false running) ≡ ok (box running)
unfolding authorize_running authorize bearer lookup is_running
admitted_running = refl

pause-IsSettled_example :
    IsSettled 7
      (box running)
      paused
      (switch.pause 7 false)
      (holding false running)
      (pause_sandbox noon switch (codes "7") abc (holding false running))
pause-IsSettled_example =
    pause-IsSettled noon switch (codes "7") abc 7 (box running) (holding false running) refl
      admitted_running

admitted_paused : authorize noon 7 abc (holding true paused) ≡ ok (box paused)
unfolding authorize bearer lookup
admitted_paused = refl

resume-IsSettled_example :
    IsSettled 7
      (box paused)
      running
      (switch.resume 7 true)
      (holding true paused)
      (resume_sandbox noon switch (codes "7") abc (holding true paused))
resume-IsSettled_example =
    resume-IsSettled noon switch (codes "7") abc 7 (box paused) (holding true paused) refl
      admitted_paused refl

held_running : lookup 7 (holding false running).records ≡ some (box running)
unfolding lookup
held_running = refl

running_deletes : can_transition_to running deleting ≡ true
unfolding can_transition_to
running_deletes = refl

delete_internal_lem_example :
    Deletes 7
      (box running)
      (noon.audit_writes (deletion noon switch 7))
      (switch.delete 7 false)
      (holding false running)
      (delete_internal noon switch 7 (holding false running))
delete_internal_lem_example =
    delete_internal_lem noon switch 7 (box running) (holding false running) held_running
      running_deletes

abbrev abd : Option Text
abd = some (codes "Bearer abd")

refused_abd : authorize noon 7 abd (holding true running) ≡ err api_unauthorized
unfolding authorize bearer lookup
refused_abd = refl

refused_changes_nothing_example :
    (get_sandbox noon switch (codes "7") abd (holding true running)
      ≡ (err api_unauthorized, holding true running))
    × (pause_sandbox noon switch (codes "7") abd (holding true running)
        ≡ (err api_unauthorized, holding true running))
    × (resume_sandbox noon switch (codes "7") abd (holding true running)
        ≡ (err api_unauthorized, holding true running))
    × (delete_sandbox noon switch (codes "7") abd (holding true running)
        ≡ (err api_unauthorized, holding true running))
    × ((request : ExecuteCommandRequest)
        → execute_command noon switch (codes "7") abd request (holding true running)
          ≡ (err api_unauthorized, holding true running))
    × ((decode : Text → Option Bytes) (body : WriteFileBody)
        → write_file noon switch decode (codes "7") abd body (holding true running)
          ≡ (err api_unauthorized, holding true running))
    × ((path : Text) (offset max_bytes : ℕ)
        → read_file noon switch (codes "7") abd path offset max_bytes (holding true running)
          ≡ (err api_unauthorized, holding true running))
    × ((path : Text)
        → list_directory noon switch (codes "7") abd path (holding true running)
          ≡ (err api_unauthorized, holding true running))
refused_changes_nothing_example =
    refused_changes_nothing noon switch (codes "7") abd 7 api_unauthorized (holding true running)
      refl refused_abd

abbrev day : List (Env × LifecycleCall)
day =
    (noon, pauses (codes "7") abc)
    ∷ (noon, resumes (codes "7") abc)
    ∷ (record noon { now = 20 }, expires 7)
    ∷ []

serve_all-Follows_example :
    Follows (holding true running) (serve_all switch (holding true running) day)
serve_all-Follows_example = serve_all-Follows switch (holding true running) day

day_ends : (serve_all switch (holding true running) day).records ≡ []
unfolding pause_sandbox resume_sandbox reap delete_internal transition authorize authorize_running
    bearer lookup insert remove can_transition_to is_running is_paused
day_ends = refl

abbrev shot : ℕ → SnapshotHandle
shot id = record {
  snapshot_id = id;
  source_sandbox_id = 7;
  name = none;
  created_at_unix_ms = id;
  source_state = running;
  spec = record {
    template_id = codes "python";
    cpu_count = 1;
    memory_mb = 512;
    timeout_seconds = 300;
    network = disabled;
  };
  size_bytes = 1;
  digest_sha256 = [];
}

abbrev shots : List SnapshotHandle
shots = shot 4 ∷ shot 9 ∷ shot 2 ∷ []

second_page :
    cut_page 1 (some 4) shots ≡ ok (record { snapshots = shot 9 ∷ []; next_cursor = some 9 })
unfolding cut_page page page_start id_at
second_page = refl

follow-eq-all_example : follow 4 2 none shots ≡ ok shots
follow-eq-all_example = follow-eq-all 4 2 shots (omega arith) (omega arith) (omega arith)

-- A snapshot of the sandbox 8 under the token abc.
abbrev with_snapshot : AppState Bool
with_snapshot = record (holding true running) {
  snapshots = (7, record { token = codes "cba"; source_sandbox_id = 8 }) ∷ [];
}

snapshot_found :
    lookup 7 with_snapshot.snapshots ≡ some (record { token = codes "cba"; source_sandbox_id = 8 })
unfolding lookup
snapshot_found = refl

admitted_again : authorize noon 7 abc with_snapshot ≡ ok (box running)
unfolding authorize bearer lookup
admitted_again = refl

-- A sandbox is only rolled back to its own snapshots.
rollback_to_foreign :
    rollback_snapshot noon switch (codes "7") (codes "7") abc with_snapshot
    ≡ (err api_conflict, with_snapshot)
unfolding rollback_snapshot authorize bearer lookup
rollback_to_foreign = refl

snapshot_refused : authorize_snapshot noon 7 abd with_snapshot ≡ err api_unauthorized
unfolding authorize_snapshot bearer lookup
snapshot_refused = refl

minute_lives : validate_ttl 60 ≡ ok tt
unfolding validate_ttl
minute_lives = refl

snapshot_refused_changes_nothing_example :
    (get_snapshot noon switch (codes "7") abd with_snapshot ≡ (err api_unauthorized, with_snapshot))
    × (verify_snapshot noon switch (codes "7") abd with_snapshot
        ≡ (err api_unauthorized, with_snapshot))
    × (delete_snapshot noon switch (codes "7") abd with_snapshot
        ≡ (err api_unauthorized, with_snapshot))
    × ((token : Text)
        → restore_snapshot noon switch token (codes "7") abd 60 with_snapshot
          ≡ (err api_unauthorized, with_snapshot))
    × ((tokens : ℕ → Text)
        → clone_snapshot noon switch tokens (codes "7") abd 3 60 with_snapshot
          ≡ (err api_unauthorized, with_snapshot))
snapshot_refused_changes_nothing_example =
    snapshot_refused_changes_nothing noon switch (codes "7") abd 7 api_unauthorized 60 3
      with_snapshot refl snapshot_refused minute_lives refl

-- A runtime that creates the sandbox 9.
abbrev creator : SandboxRuntime Bool
creator = record switch {
  create = λ spec s. (ok (record { sandbox_id = 9; node_id = codes "n"; state = running }), s);
}

abbrev python_request : CreateSandboxRequest
python_request = record {
  template = codes "python";
  cpu_count = 1;
  memory_mb = 512;
  timeout_seconds = 300;
  internet_access = false;
}

abbrev python_created : CreateSandboxResponse
python_created = record {
  sandbox_id = 9;
  node_id = codes "n";
  state = running;
  token = codes "abc";
  expires_at_unix_ms = 312000;
}

abbrev after_create : AppState Bool
after_create = (create_sandbox noon creator (codes "abc") python_request (holding true running)).1

created_answer :
    (create_sandbox noon creator (codes "abc") python_request (holding true running)).0
    ≡ ok python_created
unfolding create_sandbox register_sandbox validate_spec
created_answer = refl

create-IsAdmitted_example :
    (r : SandboxRecord) × (authorize
        (record noon { now = 100 })
        9
        (some (codes "Bearer " ++ codes "abc"))
        after_create
      ≡ ok r)
    × (r.state ≡ running)
create-IsAdmitted_example =
    create-IsAdmitted noon creator (codes "abc") python_request (holding true running) after_create
      python_created 100 (λ e. ground arith) (ap (λ answer. (answer, after_create)) created_answer)
      (omega arith)
