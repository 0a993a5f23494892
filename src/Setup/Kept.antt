-- ===== src/Setup/Kept.antt =====
-- What the cleaning and the services leave alone in /etc/uplinkmgr/uplinks.
use uplinkmgr.Prelude.{
  ◌≡◌, refl, sym, ap, ◌∙◌, List, [], ◌∷◌, ◌++◌, ◌-◌, ℕ, suc, true, false, ◌||◌, some, Text, text,
  ◌==◌, eq_of_==, lookup, delete, lookup-delete, contains, length, length-append, take, Bool-cases,
  inl, inr, if◌then◌else◌, arith,
}
use uplinkmgr.Naming.{env_file_path}
use uplinkmgr.Generator.Disk.{
  Node, file, link, Disk, has_slash, parent, is_absolute, target_path, resolve, link_limit, is_link,
}
use uplinkmgr.Setup.Clean.{
  uplinks_dir, radvd_dir, remove_stale_radvd, strip_env, is_stale_env, remove_stale_envs,
  is_dangling, remove_dangling, remove_stale, names_in,
}

-- A name stands for a node.
abbrev pub Stands : Text → Node → Disk → Type 0
Stands n node disk = lookup (env_file_path n) disk ≡ some node

radvd_dir-apart : (n f : Text) → (env_file_path n == radvd_dir ++ f) ≡ false
unfolding ◌==◌ env_file_path text
radvd_dir-apart n f = refl

remove_stale_radvd-Stands :
    (n : Text) (node : Node) (prefix : Text) (current : List Text) (suffix : Text)
    (names : List Text) (disk : Disk)
    → Stands n node disk
    → Stands n node (remove_stale_radvd radvd_dir prefix current suffix names disk)
unfolding remove_stale_radvd
remove_stale_radvd-Stands n node prefix current suffix [] disk s = s
remove_stale_radvd-Stands n node prefix current suffix (f ∷ names) disk s =
    remove_stale_radvd-Stands n node prefix current suffix names _
      (ground (arith, lookup-delete (radvd_dir ++ f) (env_file_path n) disk, radvd_dir-apart n f))

take-length_append : (s t : Text) → take (length s) (s ++ t) ≡ s
take-length_append [] t = refl
take-length_append (c ∷ s) t = ap (λ x. c ∷ x) (take-length_append s t)

strip_env-append : (n : Text) → strip_env (n ++ text ".env") ≡ n
unfolding text
strip_env-append n =
    let four : length (n ++ text ".env") - 4 ≡ length n =
      omega (arith, length-append n (text ".env")) in
    rw four (take-length_append n (text ".env"))

-- An entry that is removed is not the file of a name that is kept.
env_file_path-split : (n : Text) → env_file_path n ≡ uplinks_dir ++ (n ++ text ".env")
unfolding env_file_path text
env_file_path-split n = refl

append_cancel_dir : (s t : Text) → (uplinks_dir ++ s == uplinks_dir ++ t) ≡ (s == t)
unfolding ◌==◌ text
append_cancel_dir s t = refl

module _ (n : Text) (node : Node) (current : List Text) where
  kept_env :
      (fname : Text) (disk : Disk)
      → Stands n node disk
      → (is_link (some node) || contains n current) ≡ true
      → is_stale_env current disk fname ≡ true
      → (env_file_path n == uplinks_dir ++ fname) ≡ false
  unfolding is_stale_env
  kept_env fname disk s kept stale = elim (Bool-cases (env_file_path n == uplinks_dir ++ fname)) [
    | inl e ↦
        let same = eq_of_== (env_file_path n) (uplinks_dir ++ fname) e in
        let name : n ++ text ".env" ≡ fname = eq_of_== (n ++ text ".env") fname (
          sym (append_cancel_dir (n ++ text ".env") fname)
          ∙ ap (λ p. p == uplinks_dir ++ fname) (sym (env_file_path-split n))
          ∙ e) in
        let stripped : strip_env fname ≡ n = ap strip_env (sym name) ∙ strip_env-append n in
        let here : lookup (uplinks_dir ++ fname) disk ≡ some node =
          ap (λ p. lookup p disk) (sym same) ∙ s in
        let member = ap (λ x. contains x current) stripped in
        let linked = ap is_link here in absurd (ground (arith, member, linked))
    | inr e ↦ e
  ]

  remove_stale_envs-Stands :
      (names : List Text) (disk : Disk)
      → (is_link (some node) || contains n current) ≡ true
      → Stands n node disk
      → Stands n node (remove_stale_envs current names disk)
  unfolding remove_stale_envs
  remove_stale_envs-Stands [] disk kept s = s
  remove_stale_envs-Stands (f ∷ names) disk kept s = remove_stale_envs-Stands names _ kept (
      ground
        (arith, lookup-delete (uplinks_dir ++ f) (env_file_path n) disk, kept_env f disk s kept))

not-is_absolute : (n : Text) → has_slash n ≡ false → is_absolute (n ++ text ".env") ≡ false
unfolding text
not-is_absolute [] h = refl
not-is_absolute (c ∷ n) h = ground arith

has_slash-env : (n : Text) → has_slash n ≡ false → has_slash (n ++ text ".env") ≡ false
unfolding text
has_slash-env [] h = refl
has_slash-env (c ∷ n) h = ground (arith, has_slash-env n)

parent-plain : (s : Text) → has_slash s ≡ false → parent s ≡ []
parent-plain [] h = refl
parent-plain (c ∷ s) h = rw h

parent-env : (n : Text) → has_slash n ≡ false → parent (env_file_path n) ≡ uplinks_dir
unfolding env_file_path text
parent-env n h = ap (λ x. uplinks_dir ++ x) (parent-plain (n ++ text ".env") (has_slash-env n h))

resolve-file :
    (fuel : ℕ) (disk : Disk) (p : Text) {content : Text}
    → lookup p disk ≡ some (file content)
    → resolve (suc fuel) disk p ≡ some content
unfolding resolve
resolve-file fuel disk p h = rw (h, resolve)

pub resolve-file_here :
    (disk : Disk) (p : Text) {content : Text}
    → lookup p disk ≡ some (file content)
    → resolve link_limit disk p ≡ some content
resolve-file_here disk p h = resolve-file 40 disk p h

pub resolve-step :
    (fuel : ℕ) (disk : Disk) (p : Text) {target : Text}
    → lookup p disk ≡ some (link target)
    → resolve (suc fuel) disk p ≡ resolve fuel disk (target_path p target)
unfolding resolve
resolve-step fuel disk p h = rw (h, resolve)

not_deleted :
    (m : Text) (node : Node) (f : Text) (disk : Disk)
    → Stands m node disk
    → is_dangling disk (env_file_path m) ≡ false
    → Stands m node
        (if is_dangling disk (uplinks_dir ++ f) then delete (uplinks_dir ++ f) disk else disk)
not_deleted m node f disk s alive = elim (Bool-cases (env_file_path m == uplinks_dir ++ f)) [
  | inl e ↦
      let here = ap (is_dangling disk) (eq_of_== (env_file_path m) (uplinks_dir ++ f) e) in
      rw (sym here ∙ alive) s
  | inr e ↦ ground (arith, lookup-delete (uplinks_dir ++ f) (env_file_path m) disk)
]

pub target-env :
    (n k : Text)
    → has_slash n ≡ false
    → has_slash k ≡ false
    → target_path (env_file_path n) (k ++ text ".env") ≡ env_file_path k
target-env n k plain plain' =
    rw (not-is_absolute k plain', parent-env n plain) (sym (env_file_path-split k))

module _ (n k : Text) (content : Text) (plain : has_slash n ≡ false)
    (plain' : has_slash k ≡ false) where
  -- A link to the file of a name leads there.
  pub resolve-link :
      (disk : Disk)
      → Stands k (file content) disk
      → Stands n (link (k ++ text ".env")) disk
      → resolve link_limit disk (env_file_path n) ≡ some content
  resolve-link disk s s' =
      resolve-step 40 disk (env_file_path n) s'
      ∙ ap (resolve 40 disk) (target-env n k plain plain')
      ∙ resolve-file 39 disk (env_file_path k) s

  -- Neither is taken for dangling.
  kept_dangling :
      (f : Text) (disk : Disk)
      → Stands k (file content) disk
      → Stands n (link (k ++ text ".env")) disk
      → let disk' =
          if is_dangling disk (uplinks_dir ++ f) then delete (uplinks_dir ++ f) disk else disk in
        Stands k (file content) disk' × Stands n (link (k ++ text ".env")) disk'
  unfolding is_dangling
  kept_dangling f disk s s' =
      let file_alive : is_dangling disk (env_file_path k) ≡ false = rw s refl in
      let link_alive : is_dangling disk (env_file_path n) ≡ false =
        rw (s', resolve-link disk s s') refl in
      (
        not_deleted k (file content) f disk s file_alive,
        not_deleted n (link (k ++ text ".env")) f disk s' link_alive,
      )

  remove_dangling-Stands :
      (names : List Text) (disk : Disk)
      → Stands k (file content) disk
      → Stands n (link (k ++ text ".env")) disk
      → Stands k (file content) (remove_dangling names disk)
        × Stands n (link (k ++ text ".env")) (remove_dangling names disk)
  unfolding remove_dangling
  remove_dangling-Stands [] disk s s' = (s, s')
  remove_dangling-Stands (f ∷ names) disk s s' =
      let (t, t') = kept_dangling f disk s s' in remove_dangling-Stands names _ t t'

  -- The cleaning keeps the file of a name that is current, and the links to it.
  pub remove_stale-Stands :
      (current : List Text) (disk : Disk)
      → contains k current ≡ true
      → Stands k (file content) disk
      → Stands n (link (k ++ text ".env")) disk
      → Stands k (file content) (remove_stale current disk)
        × Stands n (link (k ++ text ".env")) (remove_stale current disk)
  unfolding remove_stale
  remove_stale-Stands current disk known s s' =
      let names = names_in radvd_dir disk in
      let prefix = text "radvd-uplinkmgr-" in
      let disk1 = remove_stale_radvd radvd_dir prefix current (text ".conf") names disk in
      let t =
        remove_stale_radvd-Stands k (file content) prefix current (text ".conf") names disk s in
      let t' =
        remove_stale_radvd-Stands n (link (k ++ text ".env")) prefix current (text ".conf") names
          disk s' in
      let names1 = names_in uplinks_dir disk1 in
      let disk2 = remove_stale_envs current names1 disk1 in
      remove_dangling-Stands (names_in uplinks_dir disk2) disk2
        (remove_stale_envs-Stands k (file content) current names1 disk1 known t)
        (remove_stale_envs-Stands n (link (k ++ text ".env")) current names1 disk1 refl t')
