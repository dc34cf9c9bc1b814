-- ===== src/Config/Load/Checked.antt =====
-- config.cpp: what every loaded configuration satisfies, whatever the file holds.
use agent_pulse.Base.{
  Option-cases, find, Text, lit, equal, Doubles, ℕ, suc, ◌≡◌, subst, inl, inr, Option, none, some,
  List, [], ◌∷◌, ◌++◌,
}
use agent_pulse.Config.{Job, Rule}
use agent_pulse.Config.Load.{
  Loaded, loaded, thrown, undefined, Ensures, then-Ensures, then_always, Yaml, Config, parse_all,
  parse_section, parse_quiet_hours, parse_root, load_config,
}
use agent_pulse.Config.Load.Items.{IsJob, IsRule, parse_job-IsJob, parse_rule-IsRule}

module _ (doubles : Doubles) (yaml : Yaml doubles.Double) where
  open yaml use {Node, get, items}

  -- Every item satisfies a predicate, and no two have one name; none has a name of the list.
  abbrev pub Parts : {A : Type 0} → (A → Text) → (A → Type 0) → List Text → List A → Type 0
  Parts name_of P names [] = Unit
  Parts name_of P names (a ∷ list) =
      P a
      × (find (λ n. equal n (name_of a)) names ≡ none)
      × Parts name_of P (name_of a ∷ names) list

  parse_all-Parts :
      {A : Type 0} (name_of : A → Text) (P : A → Type 0) (kind : Text)
      (parse_one : Node → ℕ → Loaded A) (names : List Text) (i : ℕ) (nodes : List Node)
      → ((node : Node) (i : ℕ) → Ensures P (parse_one node i))
      → Ensures
          (Parts name_of P names)
          (parse_all doubles yaml name_of kind parse_one names i nodes)
  unfolding parse_all
  parse_all-Parts name_of P kind parse_one names i [] h = tt
  parse_all-Parts name_of P kind parse_one names i (node ∷ nodes) h =
      then-Ensures (Parts name_of P names) P (parse_one node i) _ (h node i) (λ a a_ok.
        elim (Option-cases (find (λ n. equal n (name_of a)) names)) [
          | inl new ↦ rw new (
              then-Ensures (Parts name_of P names) (Parts name_of P (name_of a ∷ names)) _ _
                (parse_all-Parts name_of P kind parse_one (name_of a ∷ names) (suc i) nodes h)
                (λ rest rest_ok. (a_ok, new, rest_ok)))
          | inr (n, old) ↦ rw old tt
        ])

  parse_section-Parts :
      {A : Type 0} (name_of : A → Text) (P : A → Type 0) (key kind : Text)
      (parse_one : Node → ℕ → Loaded A) (root : Node)
      → ((node : Node) (i : ℕ) → Ensures P (parse_one node i))
      → Ensures (Parts name_of P []) (parse_section doubles yaml name_of key kind parse_one root)
  unfolding parse_section
  parse_section-Parts name_of P key kind parse_one root h =
      then_always (Parts name_of P []) (get root key) _ (λ section. of_section section)
    where
      of_section :
          (section : Option Node)
          → Ensures (Parts name_of P []) (elim section [
            | none ↦ loaded []
            | some node ↦ elim (items node) [
              | none ↦ thrown (lit "'" ++ key ++ lit "' must be a sequence")
              | some nodes ↦ parse_all doubles yaml name_of kind parse_one [] 0 nodes
            ]
          ])
      of_section none = tt
      of_section (some node) = elim (Option-cases (items node)) [
        | inl e ↦ rw e tt
        | inr (nodes, e) ↦ rw e (parse_all-Parts name_of P kind parse_one [] 0 nodes h)
      ]

  -- A loaded configuration has jobs and rules with names of their own, each as it should be.
  pub record IsConfig (c : Config doubles.Double) : Type 0 where
    pub jobs_ok : Parts (λ (job : Job). job.name) IsJob [] c.jobs
    pub rules_ok : Parts (λ (rule : Rule doubles.Double). rule.name) IsRule [] c.rules

  parse_root-IsConfig : (root : Node) → Ensures IsConfig (parse_root doubles yaml root)
  unfolding parse_root
  parse_root-IsConfig root =
      then-Ensures IsConfig (Parts (λ (job : Job). job.name) IsJob []) _ _
        (parse_section-Parts (λ (job : Job). job.name) IsJob (lit "jobs") (lit "job") _ root
          (parse_job-IsJob doubles yaml))
        (λ jobs jobs_ok.
          then-Ensures IsConfig (Parts (λ (rule : Rule doubles.Double). rule.name) IsRule []) _ _
            (parse_section-Parts (λ (rule : Rule doubles.Double). rule.name) IsRule (lit "rules")
              (lit "rule") _ root (parse_rule-IsRule doubles yaml))
            (λ rules rules_ok.
              then_always IsConfig (parse_quiet_hours doubles yaml root) _
                (λ quiet_hours. record { jobs_ok = jobs_ok; rules_ok = rules_ok })))

  -- Every configuration that `load_config` returns has jobs with pairwise different, non-empty
  -- names, with commands, with no negative timeout or number of retries and with either no schedule
  -- and an empty expression or the schedule that their expression parses to; and rules with pairwise
  -- different, non-empty names and no negative duration or cooldown.
  pub load_config-IsConfig :
      (file : Option (Loaded Node)) (c : Config doubles.Double)
      → load_config doubles yaml file ≡ loaded c
      → IsConfig c
  unfolding load_config
  load_config-IsConfig file c e = subst (Ensures IsConfig) e (go file)
    where
      go : (file : Option (Loaded Node)) → Ensures IsConfig (load_config doubles yaml file)
      go none = record { jobs_ok = tt; rules_ok = tt }
      go (some (loaded root)) = parse_root-IsConfig root
      go (some (thrown message)) = tt
      go (some undefined) = tt
