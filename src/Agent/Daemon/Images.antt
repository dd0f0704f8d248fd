-- ===== src/Agent/Daemon/Images.antt =====
-- `RemoveImage` and `PrePull` of the manager, over the runtime's image store. A call of the runtime
-- may fail with a message; what it answers otherwise is read off the store.
use birdman.Base.{
  Bool-cases, List, Option, Option-cases, String, [], beq_refl, contains, contains-erase_all,
  erase_all, false, if_cases, if◌then◌else◌, inl, inr, nat_eq, none, refl, some, string_eq, true,
  ◌∙◌, ◌∷◌, ◌≡◌,
}

-- `images` are the references in the store, `used` those that back a container, `guarded` the
-- references that the image GC protects.
pub record Images : Type 0 where
  pub images : List String
  pub used : List String
  pub guarded : List String

-- The failures of the calls of one command: `UsedImageRefs`, `ImagePresent`, `DeleteImage`, `Pull`.
pub record Faults : Type 0 where
  pub on_used : Option String
  pub on_present : Option String
  pub on_delete : Option String

pub data Status : Type 0 where
  removed absent busy error pulling pulled failed : Status

-- A report: the command, the reference, the status and its detail.
pub record Report : Type 0 where
  pub cmd_id : String
  pub image_ref : String
  pub status : Status
  pub detail : String

-- `untouchImage` of the image GC.
abbrev untouch : Images → String → Images
untouch s ref = record s { guarded = erase_all ref s.guarded }

-- The end of `RemoveImage`: the image is in the store and unused.
unfoldable pub delete_image : Images → String → Option String → Images × Status × String
delete_image s ref (some err) = (s, error, err)
delete_image s ref none = (untouch (record s { images = erase_all ref s.images }) ref, removed, "")

unfoldable pub look_up_image : Images → Faults → String → Images × Status × String
unfolding delete_image
look_up_image s f ref = elim f.on_present [
  | some err ↦ (s, error, err)
  | none ↦
      if contains ref s.images then delete_image s ref f.on_delete else (untouch s ref, absent, "")
]

unfoldable pub try_remove : Images → Faults → String → Images × Status × String
unfolding look_up_image
try_remove s f ref = elim f.on_used [
  | some err ↦ (s, error, err)
  | none ↦ if contains ref s.used then (s, busy, "") else look_up_image s f ref
]

-- `RemoveImage`: the store afterwards, and the reports.
unfoldable pub remove_image : Images → Faults → String → String → Images × List Report
unfolding try_remove
remove_image s f cmd_id ref =
    let (s', status, detail) : Images × Status × String =
      if string_eq.beq ref "" then (s, error, "empty image_ref") else try_remove s f ref in
    (s', record { cmd_id = cmd_id; image_ref = ref; status = status; detail = detail } ∷ [])

-- `PrePull`: `pull_err` is the failure of the pull.
unfoldable pub pre_pull : Images → String → String → Option String → Images × List Report
pre_pull s cmd_id ref pull_err =
    let begun : Report = record {
      cmd_id = cmd_id;
      image_ref = ref;
      status = pulling;
      detail = "";
    } in
    let guarded = record s { guarded = ref ∷ erase_all ref s.guarded } in
    elim pull_err [
      | some err ↦ (guarded, begun ∷ record begun { status = failed; detail = err } ∷ [])
      | none ↦ (
        record guarded { images = ref ∷ erase_all ref s.images },
        begun ∷ record begun { status = pulled } ∷ [],
      )
    ]

-- What the status of the report means for the store.
abbrev pub Means : Images → String → Images → Status → Type 0
Means s ref s' removed =
    (contains ref s.images ≡ true)
    × (contains ref s.used ≡ false)
    × (s'.images ≡ erase_all ref s.images)
    × (contains ref s'.guarded ≡ false)
Means s ref s' absent =
    (contains ref s.images ≡ false) × (s'.images ≡ s.images) × (contains ref s'.guarded ≡ false)
Means s ref s' busy = (contains ref s.used ≡ true) × (s' ≡ s)
Means s ref s' error = s' ≡ s
Means s ref s' _ = ⊥

contains-erase_all_self : (a : String) (xs : List String) → contains a (erase_all a xs) ≡ false
contains-erase_all_self a xs = contains-erase_all a a xs ∙ rw (beq_refl a) refl

delete_image-Means :
    (s : Images) (ref : String) (err : Option String)
    → contains ref s.images ≡ true
    → contains ref s.used ≡ false
    → let out = delete_image s ref err in Means s ref out.0 out.1
unfolding delete_image
delete_image-Means s ref none p u = (p, u, refl, contains-erase_all_self ref s.guarded)
delete_image-Means s ref (some err) p u = refl

look_up_image-Means :
    (s : Images) (f : Faults) (ref : String)
    → contains ref s.used ≡ false
    → let out = look_up_image s f ref in Means s ref out.0 out.1
unfolding look_up_image
look_up_image-Means s f ref u = elim (Option-cases f.on_present) [
  | inr (err, e) ↦ rw (e, look_up_image) refl
  | inl e ↦ elim (Bool-cases (contains ref s.images)) [
    | inl there ↦ rw (e, there, look_up_image) (delete_image-Means s ref f.on_delete there u)
    | inr gone ↦ rw (e, gone, look_up_image) (gone, refl, contains-erase_all_self ref s.guarded)
  ]
]

try_remove-Means :
    (s : Images) (f : Faults) (ref : String)
    → let out = try_remove s f ref in Means s ref out.0 out.1
unfolding try_remove
try_remove-Means s f ref = elim (Option-cases f.on_used) [
  | inr (err, e) ↦ rw (e, try_remove) refl
  | inl e ↦ elim (Bool-cases (contains ref s.used)) [
    | inl running ↦ rw (e, running, try_remove) (running, refl)
    | inr unused ↦ rw (e, unused, try_remove) (look_up_image-Means s f ref unused)
  ]
]

-- Every `RemoveImage` is answered by exactly one report, under its command and reference, and the
-- report is true: `removed` means that the image was there and unused and now is neither in the
-- store nor protected, `absent` that it was not there, `busy` that a container uses it, and after
-- `busy` and `error` the store is as it was.
pub remove_image-Means :
    (s : Images) (f : Faults) (cmd_id ref : String)
    → (r : Report) × ((remove_image s f cmd_id ref).1 ≡ r ∷ [])
      × (r.cmd_id ≡ cmd_id)
      × (r.image_ref ≡ ref)
      × Means s ref (remove_image s f cmd_id ref).0 r.status
unfolding remove_image
remove_image-Means s f cmd_id ref = (
  _,
  refl,
  refl,
  refl,
  if_cases (λ (out : Images × Status × String). Means s ref out.0 out.1) (string_eq.beq ref "")
      (s, error, "empty image_ref") (try_remove s f ref) refl (try_remove-Means s f ref),
)
