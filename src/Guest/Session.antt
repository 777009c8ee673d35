-- ===== src/Guest/Session.antt =====
-- The initialisation of crates/ferrobox-guest/src/service.rs: `init`, `rekey`, `authorized` and
-- `configure_guest_network`.
pub mod Identity
use ferrobox.Prelude.{
  ℕ, zero, suc, ◌+◌, ◌-◌, ◌*◌, ◌/◌, ◌%◌, ◌^◌, ◌≤◌, ◌<◌, min, ◌≡◌, refl, sym, ap, ◌∙◌, ◌≢◌, ◌↔◌, ◌⊎◌,
  inl, inr, Bool, true, false, not, ◌&&◌, ◌||◌, Option, none, some, List, [], ◌∷◌, ◌++◌, map, arith,
  ltb, leb, ◌==◌, in_range, if◌then◌else◌, ==_iff, ltb_iff, leb_iff, Bool-cases, Option-cases,
  length, is_empty, is_empty-eq-false_iff, all, any, get_elem?, get_or, take, drop, length-append,
  length-take, length-drop, take-append-drop, take_of_length-le, All, all_iff, any-eq-false_iff,
  all-append, any-append, Result, reject_if, ok_or, map_err, is_ok, >>=-eq-ok, Result-cases, Text,
  Bytes, codes, utf8_char, bytes, byte_len, text_eq, text_eq_iff, is_ascii_alphanumeric, is_control,
  is_whitespace, trim_start_while, trim, strip_prefix, starts_with, push_front, split,
  to_ascii_lower, all-bytes, bytes_of_ascii, has_nul, has_nul-eq-false_iff, strip_prefix-append,
  strip_prefix-eq-some, Table, lookup, remove, insert, lookup-remove, lookup-insert, ok, err,
}
use ferrobox.Prelude.Exec.{Exec, pure, raise, lift, refuse_if, modify, ◌>>=◌, ◌>>◌}

pub data Status : Type 0 where
  failed_precondition unauthenticated invalid_argument permission_denied : Status
  not_found internal resource_exhausted already_exists : Status

pub record InitState : Type 0 where
  pub sandbox_id : Text
  pub token_digest : Bytes
  pub uid : ℕ
  pub gid : ℕ
  pub max_file_bytes : ℕ
  pub guest_cgroup_available : Bool

-- The fields that an `InitRequest` and a `RekeyRequest` share.
pub record InitRequest : Type 0 where
  pub sandbox_id : Text
  pub token : Text
  pub command_uid : ℕ
  pub command_gid : ℕ
  pub max_file_bytes : ℕ
  pub max_processes : ℕ
  pub guest_ipv4 : Text
  pub guest_prefix_length : ℕ
  pub gateway_ipv4 : Text
  pub dns_ipv4 : Text

-- What the guest's system supplies: the digest of a token, whether a text is an IPv4 address, whether
-- the guest's control group can be made and a limit on processes be written in it, and whether a
-- command or a write that is named goes through.
pub record Machine : Type 0 where
  pub sha256 : Bytes → Bytes
  pub is_ipv4 : Text → Bool
  pub makes_cgroup : Bool
  pub writes_pids_max : ℕ → Bool
  pub run_guest_command : List Text → Result Status (Unit {0})
  pub write_resolv_conf : Text → Result Status (Unit {0})

-- `initialization`, and what `pids.max` of the guest's control group holds.
pub record GuestState : Type 0 where
  pub initialization : Option InitState
  pub pids_max : Option ℕ

abbrev pub Guest : Type 0 → Type 0
Guest A = Exec GuestState Status A

unfoldable pub is_invalid_init : InitRequest → Bool
is_invalid_init request =
    is_empty request.sandbox_id
    || ltb (byte_len request.token) 32
    || request.command_uid == 0
    || request.max_file_bytes == 0
    || request.max_processes == 0

module _ (m : Machine) where
  -- `authorized`
  unfoldable pub authorized : Option Text → Option InitState → Result Status InitState
  authorized auth none = err failed_precondition
  authorized none (some state) = err unauthenticated
  authorized (some token) (some state) =
      if text_eq state.token_digest (m.sha256 (bytes token)) then ok state else err unauthenticated

  -- `configure_guest_network`, with the names of its commands.
  unfoldable pub configure_guest_network : Text → ℕ → Text → Text → Result Status (Unit {0})
  configure_guest_network address prefix_length gateway dns =
      if is_empty address
      then if not (prefix_length == 0) || not (is_empty gateway) || not (is_empty dns)
        then err invalid_argument
        else ok tt
      else if not (m.is_ipv4 address && m.is_ipv4 gateway && m.is_ipv4 dns)
      then err invalid_argument
      else if not (in_range 1 32 prefix_length)
      then err invalid_argument
      else elim (m.run_guest_command (codes "link" ∷ [])) [
        | err e ↦ err e
        | ok _ ↦ elim (m.run_guest_command (codes "address" ∷ address ∷ [])) [
          | err e ↦ err e
          | ok _ ↦ elim (m.run_guest_command (codes "route" ∷ gateway ∷ [])) [
            | err e ↦ err e
            | ok _ ↦ m.write_resolv_conf dns
          ]
        ]
      ]

  abbrev pub network_of : InitRequest → Result Status (Unit {0})
  network_of request =
      configure_guest_network request.guest_ipv4 request.guest_prefix_length request.gateway_ipv4
        request.dns_ipv4

  abbrev pub candidate : InitRequest → Bool → InitState
  candidate request cgroup = record {
    sandbox_id = request.sandbox_id;
    token_digest = m.sha256 (bytes request.token);
    uid = request.command_uid;
    gid = request.command_gid;
    max_file_bytes = request.max_file_bytes;
    guest_cgroup_available = cgroup;
  }

  abbrev pub is_replay : InitState → InitState → Bool
  is_replay existing new =
      text_eq existing.sandbox_id new.sandbox_id
      && text_eq existing.token_digest new.token_digest
      && existing.uid == new.uid
      && existing.gid == new.gid

  -- `configure_pids_limit`: whether there is a control group.
  unfoldable pub configure_pids_limit : ℕ → Guest Bool
  configure_pids_limit maximum s =
      if not m.makes_cgroup
      then (ok false, s)
      else if m.writes_pids_max maximum
      then (ok true, record s { pids_max = some maximum })
      else (err internal, s)

  -- The end of `init`, with the lock held: the answer is `replayed`.
  unfoldable pub install : InitRequest → InitState → Option InitState → Guest Bool
  install request new (some existing) s =
      if is_replay existing new then (ok true, s) else (err failed_precondition, s)
  install request new none s = elim (network_of request) [
    | err e ↦ (err e, s)
    | ok _ ↦ (ok false, record s { initialization = some new })
  ]

  -- `init`: the limit on processes is written before the identity is looked at.
  unfoldable pub init : InitRequest → Guest Bool
  init request = do
    refuse_if (is_invalid_init request) invalid_argument
    cgroup ← configure_pids_limit request.max_processes
    (λ s. install request (candidate request cgroup) s.initialization s)

  -- `rekey`, with the token of its `auth`.
  unfoldable pub rekey : Option Text → InitRequest → Guest Bool
  rekey auth request = do
    state ← (λ s. (authorized auth s.initialization, s))
    refuse_if (is_invalid_init request) invalid_argument
    flushed ←
        lift
          (if is_empty request.guest_ipv4 then ok tt else m.run_guest_command (codes "flush" ∷ []))
    networked ← lift (network_of request)
    cgroup ← configure_pids_limit request.max_processes
    modify (λ s. record s { initialization = some (candidate request cgroup) })
    pure true
