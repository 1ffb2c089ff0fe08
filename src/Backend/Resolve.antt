-- ===== src/Backend/Resolve.antt =====
-- The instances of a request on the server (backend/internal/service/benchmark_service.go).
use bit_bench.Prelude.{
  ℕ, Option, none, some, List, [], ◌∷◌, ◌++◌, Bool, false, not, Str, str_eq, length, has,
  if◌then◌else◌, ltb, ◌==◌,
}
use bit_bench.Objects.{Object, get}
use bit_bench.Options.{Numeric}
use bit_bench.Backend.{
  Result, ok, error, ◌>>=◌, JsonNumber, ServerSchema, ServerValues, OptionError,
  canonicalize_options,
}
use bit_bench.Backend.Naming.{server_build_invocation, server_build_label, with_unique_label}
use bit_bench.Backend.Strings.{trim_space, go_lower}
use bit_bench.Backend.Hosts.{resolve_platform}

-- `compressor.Instance` as a request holds it: `ParseInstances` makes no options an empty map, and
-- nothing reads the label of a request.
pub record Instance (Num : Type 0) : Type 0 where
  pub name : Str
  pub options : ServerValues Num

-- What is read of the spec of a package.
pub record PackageSpec (Num : Type 0) : Type 0 where
  pub platform : Str
  pub options : ServerSchema Num

-- What is read of a package row; the spec is `none` where `json.Unmarshal` refuses it.
pub record ServerPackage (Num : Type 0) : Type 0 where
  pub workers : ℕ
  pub spec : Option (PackageSpec Num)

pub data ResolveError : Type 0 where
  no_compressors too_many_instances name_required : ResolveError
  not_validated unknown_compressor too_many_workers bad_spec : (name : Str) → ResolveError
  bad_option : (name : Str) → OptionError → ResolveError
  duplicate_configuration : (name : Str) → ResolveError
  no_label : ResolveError

-- `resolvedInstance`: the instance as it is stored. The platform is set for packages only.
pub record ResolvedInstance (Num : Type 0) : Type 0 where
  pub name : Str
  pub options : ServerValues Num
  pub label : Str
  pub platform : Option Str
  pub emulated : Bool

-- `takenLabels`, `seenBuiltin` and `seenCustom`
pub record Seen : Type 0 where
  pub taken_labels : List Str
  pub seen_builtin : List Str
  pub seen_custom : List Str

-- The schema of an instance, and its package's spec if it is not built in.
pub record Found (Num : Type 0) : Type 0 where
  pub schema : ServerSchema Num
  pub spec : Option (PackageSpec Num)

abbrev pub max_instances_per_benchmark : ℕ
max_instances_per_benchmark = 64

-- The parameters: the registry, `FindVisibleReadyByName` for the acting user, `json.Marshal` on
-- options, two values of the server's configuration, and the small letters of a text that is not
-- ASCII.
pub record Server (Num : Type 0) (n : Numeric Num) : Type 0 where
  pub numbers : JsonNumber Num n
  pub registry : Object (ServerSchema Num)
  pub find_visible_ready_by_name : Str → Result ResolveError (Option (ServerPackage Num))
  pub marshal : ServerValues Num → Str
  pub max_parallelism : ℕ
  pub host : Str
  pub lower : Str → Str

module _ {Num : Type 0} ⦃n : Numeric Num⦄ (s : Server Num n) where
  unfoldable pub with_spec : Str → Option (PackageSpec Num) → Result ResolveError (Found Num)
  with_spec name none = error (bad_spec name)
  with_spec name (some spec) = ok (record { schema = spec.options; spec = some spec })

  unfoldable pub check_package : Str → Option (ServerPackage Num) → Result ResolveError (Found Num)
  unfolding with_spec
  check_package name none = error (unknown_compressor name)
  check_package name (some p) =
      if ltb s.max_parallelism p.workers
      then error (too_many_workers name)
      else with_spec name p.spec

  -- `compressor.IsValid(name)`, or else the packages
  unfoldable pub find_compressor : Str → Result ResolveError (Found Num)
  unfolding check_package get go_lower
  find_compressor name = elim (get (go_lower s.lower name) s.registry) [
    | some schema ↦ ok (record { schema = schema; spec = none })
    | none ↦ s.find_visible_ready_by_name name >>= check_package name
  ]

  unfoldable pub canonicalized :
      Str → Result OptionError (ServerValues Num) → Result ResolveError (ServerValues Num)
  canonicalized name (ok values) = ok values
  canonicalized name (error e) = error (bad_option name e)

  -- Refuses a configuration that was seen, and remembers another one.
  unfoldable pub remember : Str → Found Num → ServerValues Num → Seen → Result ResolveError Seen
  unfolding server_build_invocation
  remember name found values seen = elim found.spec [
    | none ↦
        let invocation = server_build_invocation s.numbers name found.schema values in
        if has invocation seen.seen_builtin
        then error (duplicate_configuration name)
        else ok (record seen { seen_builtin = invocation ∷ seen.seen_builtin })
    | some p ↦
        let key = name ++ 0 ∷ s.marshal values in
        if has key seen.seen_custom
        then error (duplicate_configuration name)
        else ok (record seen { seen_custom = key ∷ seen.seen_custom })
  ]

  unfoldable pub platform_of : Option (PackageSpec Num) → Option Str
  unfolding resolve_platform
  platform_of none = none
  platform_of (some p) = some (resolve_platform s.lower p.platform s.host)

  -- `platform != hostPlatform`, for a package
  unfoldable pub runs_emulated : Option Str → Bool
  runs_emulated none = false
  runs_emulated (some platform) = not (str_eq platform s.host)

  unfoldable pub labelled :
      Str
      → Found Num
      → ServerValues Num
      → Seen
      → Option (Str × List Str)
      → Result ResolveError (Seen × ResolvedInstance Num)
  unfolding platform_of runs_emulated
  labelled name found values seen none = error no_label
  labelled name found values seen (some (label, taken)) =
      let platform = platform_of found.spec in
      ok (
        record seen { taken_labels = taken },
        record {
          name = name;
          options = values;
          label = label;
          platform = platform;
          emulated = runs_emulated platform;
        },
      )

  -- One round of the loop, with the name in lower case and trimmed.
  unfoldable pub resolve_named :
      Str → ServerValues Num → Seen → Result ResolveError (Seen × ResolvedInstance Num)
  unfolding find_compressor canonicalized remember labelled canonicalize_options server_build_label
      with_unique_label
  resolve_named name options seen = do
    found ← find_compressor name
    values ← canonicalized name (canonicalize_options s.numbers found.schema options)
    seen' ← remember name found values seen
    labelled name found values seen' (
        with_unique_label (server_build_label s.numbers name found.schema values)
          seen'.taken_labels)

  unfoldable pub resolve_one :
      Instance Num → Seen → Result ResolveError (Seen × ResolvedInstance Num)
  unfolding resolve_named go_lower trim_space
  resolve_one inst seen =
      let name = go_lower s.lower (trim_space inst.name) in
      if str_eq name [] then error name_required else resolve_named name inst.options seen

  -- The loop over the instances.
  unfoldable pub resolve_from :
      Seen → List (Instance Num) → Result ResolveError (List (ResolvedInstance Num))
  unfolding resolve_one
  resolve_from seen [] = ok []
  resolve_from seen (inst ∷ rest) = do
    (seen', resolved) ← resolve_one inst seen
    more ← resolve_from seen' rest
    ok (resolved ∷ more)

  -- `resolveInstances`
  unfoldable pub resolve_instances :
      List (Instance Num) → Result ResolveError (List (ResolvedInstance Num))
  unfolding resolve_from
  resolve_instances instances =
      if length instances == 0
      then error no_compressors
      else (if ltb max_instances_per_benchmark (length instances)
          then error too_many_instances
          else resolve_from (record { taken_labels = []; seen_builtin = []; seen_custom = [] })
              instances)
