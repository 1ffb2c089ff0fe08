-- ===== src/Packages.antt =====
-- The page of compressor packages (pages/CompressorsPage.tsx) and the notice about emulated runs
-- (components/EmulationNotice.tsx, and `emulatedInstances` of lib/platforms.ts). What a request
-- meets and what the user answers to a question are parameters.
pub mod Uploading
use bit_bench.Prelude.{
  ℕ, Option, none, some, List, [], ◌∷◌, ◌++◌, Bool, true, false, not, ◌&&◌, ◌||◌, Str, codes,
  str_eq, if◌then◌else◌, any, keep, map, join,
}
use bit_bench.Api.{Settled, resolved, rejected}
use bit_bench.Permissions.{truthy}
use bit_bench.Platforms.{option_eq, platform_arch}
use bit_bench.Listing.{or_nothing}

pub record PackageRow : Type 0 where
  pub id : Str
  pub name : Str
  pub status : Str

-- The form of an upload: the file, and the group if it is set.
pub record UploadForm : Type 0 where
  pub file : Str
  pub group_id : Option Str

-- `sent` lists the uploads, the latest first.
pub record PackagesState : Type 0 where
  pub packages : List PackageRow
  pub loading : Bool
  pub error : Str
  pub show_upload : Bool
  pub file : Option Str
  pub group_id : Str
  pub uploading : Bool
  pub open_log : Option Str
  pub sent : List UploadForm

-- `isAdmin` and `canUpload`
unfoldable pub is_admin : Option Str → Bool
unfolding option_eq
is_admin role = option_eq role (some (codes "admin"))

unfoldable pub can_upload : Option Str → Bool
unfolding option_eq
can_upload role =
    option_eq role (some (codes "admin"))
    || option_eq role (some (codes "professor"))
    || option_eq role (some (codes "phd"))

-- `load`: a failure keeps the last list.
unfoldable pub load_packages : Settled (List PackageRow) → PackagesState → PackagesState
load_packages (resolved packages) s = record s { packages = or_nothing packages; loading = false }
load_packages (rejected message) s = record s { loading = false }

-- `GroupRef`
pub record GroupRef : Type 0 where
  pub id : Str
  pub name : Str

-- The groups that an administrator chooses from, with the answer to the request for them.
unfoldable pub offer_groups : Option Str → Settled (List GroupRef) → List GroupRef → List GroupRef
unfolding is_admin
offer_groups role (resolved listed) groups = if is_admin role then or_nothing listed else groups
offer_groups role (rejected message) groups = groups

-- The list is loaded again every three seconds while this holds.
unfoldable pub has_building : PackagesState → Bool
has_building s = any (λ p. str_eq p.status (codes "building")) s.packages

unfoldable pub upload_form : Option Str → Str → Str → UploadForm
unfolding is_admin
upload_form role file group_id = record {
  file = file;
  group_id = if is_admin role && truthy (some group_id) then some group_id else none;
}

unfoldable pub begin_upload : Option Str → Str → PackagesState → PackagesState
unfolding upload_form
begin_upload role file s = record s {
  uploading = true;
  error = [];
  sent = upload_form role file s.group_id ∷ s.sent;
}

unfoldable pub after_upload :
    Settled Unit → Settled (List PackageRow) → PackagesState → PackagesState
unfolding load_packages
after_upload (resolved _) listed s =
    load_packages listed (record s { file = none; group_id = []; show_upload = false })
after_upload (rejected message) listed s = record s { error = message }

unfoldable pub end_upload : PackagesState → PackagesState
end_upload s = record s { uploading = false }

unfoldable pub upload_file :
    Option Str
    → Option Str
    → Settled Unit
    → Settled (List PackageRow)
    → PackagesState
    → PackagesState
unfolding begin_upload after_upload end_upload
upload_file role none answer listed s = s
upload_file role (some file) answer listed s =
    end_upload (after_upload answer listed (begin_upload role file s))

-- `handleUpload`, with the answers to its request and to that for the packages.
unfoldable pub handle_upload :
    Option Str → Settled Unit → Settled (List PackageRow) → PackagesState → PackagesState
unfolding upload_file
handle_upload role answer listed s = upload_file role s.file answer listed s

unfoldable pub delete_package :
    Bool → Settled Unit → Settled (List PackageRow) → PackagesState → PackagesState
unfolding load_packages
delete_package false answer listed s = s
delete_package true (resolved _) listed s = load_packages listed s
delete_package true (rejected message) listed s = record s { error = message }

unfoldable pub toggle_log : Str → PackagesState → PackagesState
unfolding option_eq
toggle_log id s = record s { open_log = if option_eq s.open_log (some id) then none else some id }

unfoldable pub toggle_upload : PackagesState → PackagesState
toggle_upload s = record s { show_upload = not s.show_upload }

-- An instance as a benchmark records it.
pub record RecordedInstance : Type 0 where
  pub label : Str
  pub platform : Option Str
  pub emulated : Bool

unfoldable pub emulated_instances : List RecordedInstance → List RecordedInstance
emulated_instances instances = keep (λ i. i.emulated) instances

-- `${label}${platform ? ` (${arch})` : ''}`
unfoldable pub emulated_label : RecordedInstance → Str
emulated_label i =
    i.label
    ++ (if truthy i.platform then codes " (" ++ platform_arch i.platform ++ codes ")" else [])

-- The instances that the notice names, if there is a notice.
unfoldable pub emulation_notice : List RecordedInstance → Option Str
unfolding emulated_instances emulated_label
emulation_notice instances = elim (emulated_instances instances) [
  | [] ↦ none
  | i ∷ rest ↦ some (join (codes ", ") (map emulated_label (i ∷ rest)))
]
