-- ===== src/Commands/Grants/Decided.antt =====
-- What a grant that has succeeded does to the decisions that come after it.
use ribat.Base.{
  Bool, true, false, not, ◌&&◌, none, is_some, List, [], Text, codes, text_eq, ok, if◌then◌else◌,
  ◌≡◌, ◌∙◌, ap, subst, arith, Bool-cases, inl, inr,
}
use ribat.Time.{unix, nullable_unix}
use ribat.Image.{Reference, parse_reference}
use ribat.Policy.{Config, action_allow, action_deny}
use ribat.Policy.Matcher.{effective_policy_for}
use ribat.Store.Rows.{Db, nullable_string}
use ribat.Store.World.{World}
use ribat.Store.Overrides.{not_expired, covers, find_approval, find_bypass}
use ribat.Store.Overrides.Insert.{Grant}
use ribat.Store.Overrides.Granted.{with_approval-found, with_freeze-found, with_bypass-found}
use ribat.Engine.{Engine, Request, ManifestDigest}
use ribat.Engine.Decide.{decide}
use ribat.Engine.Decide.Permitted.{
  permitted, mutable_permitted, resolution_permitted, digest_permitted, frozen, overridden,
  verified, tag_reference,
}
use ribat.Engine.Decide.Safe.{decide_safe, decide_exact, quiet_opens}
use ribat.Commands.{Machine}
use ribat.Commands.Args.{OperationOptions, parse_operation_args}
use ribat.Commands.Configured.{checked_config}
use ribat.Commands.State.{expires_from_ttl}
use ribat.Commands.Grants.{make_grant, run_approve, run_bypass, run_freeze}
use ribat.Commands.Grants.Granted.{
  HasGranted, saved_tables, run_freeze-HasGranted, run_approve-HasGranted, run_bypass-HasGranted,
}

-- The tag of one reference is that of another.
pub record SameTag (a b : Reference) : Type 0 where
  pub registry : a.registry ≡ b.registry
  pub repository : a.repository ≡ b.repository
  pub tag : a.tag ≡ b.tag

-- The arguments of a grant name the options, the configuration with a state file, and the reference.
pub record Names (m : Machine) (args : List Text) (command : Text) (require_ttl : Bool)
    (options : OperationOptions) (cfg : Config) (ref : Reference) : Type 0 where
  pub parses : parse_operation_args m args command require_ttl ≡ ok options
  pub loads : checked_config m options.config_path command ≡ ok cfg
  pub names : parse_reference options.image_ref ≡ ok ref
  pub on_file : text_eq cfg.state.path (codes ":memory:") ≡ false

-- The expiry of a grant is ahead.
abbrev pub Lasts : Machine → OperationOptions → Engine → Type 0
Lasts m options e =
    not_expired (nullable_unix (expires_from_ttl m.now options.ttl)) (unix e.now) ≡ true

-- A mutable tag under quarantine that the registry resolves.
pub record Quarantined (e : Engine) (target : Reference) (found : ManifestDigest) : Type 0 where
  pub mutable : target.is_digest_pinned ≡ false
  pub not_allowed :
      text_eq (effective_policy_for e.config target).policy.mutable_tags.action action_allow ≡ false
  pub resolves : e.resolve target ≡ ok found

module _ {m : Machine} {args : List Text} {command : Text} {require_ttl : Bool}
    {granted : Grant → Text → Db → Db} {db db' : Db} where
  -- The tables that a grant leaves, for the options, the configuration and the reference of its arguments.
  granted_tables :
      (options : OperationOptions) (cfg : Config) (ref : Reference)
      → Names m args command require_ttl options cfg ref
      → HasGranted m args command require_ttl granted db db'
      → db' ≡ granted (make_grant m ref options) ref.digest db
  unfolding saved_tables
  granted_tables options cfg ref n h =
      let same_options : h.options ≡ options = cc (h.parses, n.parses) in
      let loads : checked_config m options.config_path command ≡ ok h.config =
        subst (λ (x : OperationOptions). checked_config m x.config_path command ≡ ok h.config)
          same_options h.loads in
      let same_config : h.config ≡ cfg = cc (loads, n.loads) in
      let names : parse_reference options.image_ref ≡ ok h.ref =
        subst (λ (x : OperationOptions). parse_reference x.image_ref ≡ ok h.ref) same_options
          h.names in
      let same_ref : h.ref ≡ ref = cc (names, n.names) in
      let change : OperationOptions → Reference → Db → Db =
        λ x r. granted (make_grant m r x) r.digest in
      h.after
      ∙ ap (λ c. saved_tables c (change h.options h.ref) db) same_config
      ∙ ap (λ r. saved_tables cfg (change h.options r) db) same_ref
      ∙ ap (λ x. saved_tables cfg (change x ref) db) same_options
      ∙ ap (λ b. if b then db else change options ref db) n.on_file

-- What the specification says of a tag under quarantine.
permitted-Quarantined :
    (e : Engine) (target : Reference) (found : ManifestDigest) (db : Db)
    → Quarantined e target found
    → permitted e target db ≡ (
        not (text_eq (effective_policy_for e.config target).policy.mutable_tags.action action_deny)
        && digest_permitted e
            (effective_policy_for e.config target).policy
            (tag_reference target)
            found.digest
            db)
unfolding permitted mutable_permitted resolution_permitted
permitted-Quarantined e target found db q = simp (q.mutable, q.not_allowed, q.resolves)

frozen-permitted :
    (e : Engine) (target : Reference) (found : ManifestDigest) (db : Db)
    → Quarantined e target found
    → frozen e (tag_reference target) found.digest db ≡ true
    → permitted e target db ≡ false
unfolding digest_permitted
frozen-permitted e target found db q cold =
    permitted-Quarantined e target found db q ∙ ground (arith, cold)

-- What else the specification asks of a tag under quarantine that has an override.
pub record IsClear (e : Engine) (target : Reference) (found : ManifestDigest) (db : Db)
    : Type 0 where
  pub not_denied :
      text_eq (effective_policy_for e.config target).policy.mutable_tags.action action_deny ≡ false
  pub not_frozen : frozen e (tag_reference target) found.digest db ≡ false
  pub verifies :
      verified e
        (effective_policy_for e.config target).policy.signatures.cosign
        (tag_reference target)
        found.digest
        db
      ≡ true

overridden-permitted :
    (e : Engine) (target : Reference) (found : ManifestDigest) (db : Db)
    → Quarantined e target found
    → IsClear e target found db
    → overridden e (tag_reference target) found.digest db ≡ true
    → permitted e target db ≡ true
unfolding digest_permitted
overridden-permitted e target found db q c granted =
    permitted-Quarantined e target found db q
    ∙ simp (c.not_denied, c.not_frozen, c.verifies, granted)

-- If `ribat freeze` exits with 0 and its state is a file, then a Decide in the world that it
-- leaves, if it returns no error, denies the tag of its reference, as long as the freeze has not
-- expired at the time of the decision, the tag is under quarantine, the registry resolves it, and
-- the freeze has no digest or that of the registry.
pub freeze_then_decide :
    (m : Machine) (args : List Text) (w : World) (options : OperationOptions) (cfg : Config)
    (ref : Reference) (e : Engine) (req : Request) (target : Reference) (found : ManifestDigest)
    → Names m args (codes "freeze") false options cfg ref
    → (run_freeze m args w).0.code ≡ 0
    → parse_reference req.image_ref ≡ ok target
    → SameTag target ref
    → Quarantined e target found
    → covers (nullable_string ref.digest) found.digest ≡ true
    → Lasts m options e
    → (decide e req (run_freeze m args w).1).0.1 ≡ none
    → (decide e req (run_freeze m args w).1).0.0.allowed ≡ false
unfolding frozen make_grant tag_reference
freeze_then_decide m args w options cfg ref e req target found n zero parses same q covered lasts
      quiet =
    let tables = granted_tables options cfg ref n (run_freeze-HasGranted m args w zero) in
    let after : World = (run_freeze m args w).1 in
    let active =
      with_freeze-found (make_grant m ref options) e.now w.db lasts ref.digest found.digest
        covered in
    let cold : frozen e (tag_reference target) found.digest after.db ≡ true =
      cc (tables, active, same.registry, same.repository, same.tag) in
    elim (Bool-cases (decide e req after).0.0.allowed) [
      | inr refused ↦ refused
      | inl allowed ↦ cc (
        decide_safe e req target after (quiet_opens e req after quiet) parses quiet allowed,
        frozen-permitted e target found after.db q cold,
      )
    ]

-- If `ribat bypass` exits with 0 and its state is a file, then Decide with an open store allows the
-- tag of its reference and returns no error, provided no call fails after it, the tag is under
-- quarantine, the registry resolves it, the bypass has not expired at the time of the decision, no
-- freeze covers it and its verification, where required, succeeds.
pub bypass_then_decide :
    (m : Machine) (args : List Text) (w : World) (options : OperationOptions) (cfg : Config)
    (ref : Reference) (e : Engine) (req : Request) (target : Reference) (found : ManifestDigest)
    → Names m args (codes "bypass") true options cfg ref
    → (run_bypass m args w).0.code ≡ 0
    → e.has_store ≡ true
    → parse_reference req.image_ref ≡ ok target
    → SameTag target ref
    → Quarantined e target found
    → IsClear e target found (run_bypass m args w).1.db
    → Lasts m options e
    → (run_bypass m args w).1.faults ≡ []
    → ((decide e req (run_bypass m args w).1).0.1 ≡ none)
      × ((decide e req (run_bypass m args w).1).0.0.allowed ≡ true)
unfolding overridden make_grant tag_reference
bypass_then_decide m args w options cfg ref e req target found n zero open_store parses same q c
      lasts calm =
    let after : World = (run_bypass m args w).1 in
    let tables = granted_tables options cfg ref n (run_bypass-HasGranted m args w zero) in
    let active = with_bypass-found (make_grant m ref options) e.now w.db lasts in
    let bypassed : is_some (find_bypass target.registry target.repository target.tag e.now after.db)
        ≡ true =
      cc (tables, active, same.registry, same.repository, same.tag) in
    let granted : overridden e (tag_reference target) found.digest after.db ≡ true =
      ground (arith, bypassed) in
    let (quiet, exact) = decide_exact e req target after open_store parses calm in
    (quiet, exact ∙ overridden-permitted e target found after.db q c granted)

-- If `ribat approve` exits with 0 and its state is a file, then Decide with an open store allows
-- the tag of its reference and returns no error, provided no call fails after it, the tag is under
-- quarantine, the registry resolves it to the approved digest, the approval has not expired at the
-- time of the decision, no freeze covers it and its verification, where required, succeeds.
pub approve_then_decide :
    (m : Machine) (args : List Text) (w : World) (options : OperationOptions) (cfg : Config)
    (ref : Reference) (e : Engine) (req : Request) (target : Reference) (found : ManifestDigest)
    → Names m args (codes "approve") false options cfg ref
    → (run_approve m args w).0.code ≡ 0
    → e.has_store ≡ true
    → parse_reference req.image_ref ≡ ok target
    → SameTag target ref
    → found.digest ≡ ref.digest
    → Quarantined e target found
    → IsClear e target found (run_approve m args w).1.db
    → Lasts m options e
    → (run_approve m args w).1.faults ≡ []
    → ((decide e req (run_approve m args w).1).0.1 ≡ none)
      × ((decide e req (run_approve m args w).1).0.0.allowed ≡ true)
unfolding overridden make_grant tag_reference
approve_then_decide m args w options cfg ref e req target found n zero open_store parses same digest
      q c lasts calm =
    let after : World = (run_approve m args w).1 in
    let tables = granted_tables options cfg ref n (run_approve-HasGranted m args w zero) in
    let active = with_approval-found (make_grant m ref options) e.now w.db lasts ref.digest in
    let approved : is_some
          (find_approval target.registry target.repository target.tag found.digest e.now after.db)
        ≡ true =
      cc (tables, active, same.registry, same.repository, same.tag, digest) in
    let granted : overridden e (tag_reference target) found.digest after.db ≡ true =
      ground (arith, approved) in
    let (quiet, exact) = decide_exact e req target after open_store parses calm in
    (quiet, exact ∙ overridden-permitted e target found after.db q c granted)
