-- ===== src/Packages/Uploading.antt =====
-- What an upload of a package leaves behind.
use bit_bench.Prelude.{◌≡◌, refl, sym, subst, Option, none, some, List, [], ◌∷◌, false, Str}
use bit_bench.Api.{Settled, resolved, rejected}
use bit_bench.Listing.{or_nothing}
use bit_bench.Packages.{
  PackageRow, PackagesState, upload_form, load_packages, begin_upload, after_upload, end_upload,
  upload_file, handle_upload,
}

-- Where a file is chosen, an upload sends one form. If it fails, its message is shown, and the file
-- and the list stay for another attempt; if it succeeds, the file is gone, no message is shown, and
-- the list is the server's, if that can be read. The page is not uploading afterwards.
abbrev pub Uploaded :
    Option Str
    → Str
    → Settled Unit
    → Settled (List PackageRow)
    → PackagesState
    → PackagesState
    → Type 0
Uploaded role file (rejected message) listed s after =
    (after.error ≡ message) × (after.file ≡ s.file) × (after.packages ≡ s.packages)
Uploaded role file (resolved _) (resolved packages) s after =
    (after.error ≡ []) × (after.file ≡ none) × (after.packages ≡ or_nothing packages)
Uploaded role file (resolved _) (rejected message) s after =
    (after.error ≡ []) × (after.file ≡ none) × (after.packages ≡ s.packages)

upload_file_lem :
    (role : Option Str) (file : Str) (answer : Settled Unit) (listed : Settled (List PackageRow))
    (s : PackagesState)
    → let after = upload_file role (some file) answer listed s in
      Uploaded role file answer listed s after
      × (after.uploading ≡ false)
      × (after.sent ≡ upload_form role file s.group_id ∷ s.sent)
unfolding upload_file begin_upload after_upload end_upload load_packages
upload_file_lem role file (rejected message) listed s = ((refl, refl, refl), refl, refl)
upload_file_lem role file (resolved _) (resolved packages) s = ((refl, refl, refl), refl, refl)
upload_file_lem role file (resolved _) (rejected message) s = ((refl, refl, refl), refl, refl)

-- Where a file is chosen, an upload sends one form and ends with the page not uploading. If it
-- fails, its message is shown, and the file and the list stay; if it succeeds, no message is shown,
-- the file is gone, and the list is the server's if that can be read, else the last one.
pub handle_upload_lem :
    (role : Option Str) (file : Str) (answer : Settled Unit) (listed : Settled (List PackageRow))
    (s : PackagesState)
    → s.file ≡ some file
    → let after = handle_upload role answer listed s in
      Uploaded role file answer listed s after
      × (after.uploading ≡ false)
      × (after.sent ≡ upload_form role file s.group_id ∷ s.sent)
unfolding handle_upload
handle_upload_lem role file answer listed s chosen =
    subst
      (λ f.
        let after = upload_file role f answer listed s in
        Uploaded role file answer listed s after
        × (after.uploading ≡ false)
        × (after.sent ≡ upload_form role file s.group_id ∷ s.sent))
      (sym chosen) (upload_file_lem role file answer listed s)
