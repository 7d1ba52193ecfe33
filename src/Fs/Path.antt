-- ===== src/Fs/Path.antt =====
-- Paths of fs.c. A path is its bytes before the NUL, and so is a name.
pub mod Elements
use soproyecto.Common.{
  ℕ, zero, suc, ◌+◌, ◌-◌, Bool, true, false, not, ◌&&◌, Option, none, some, List, [], ◌∷◌, length,
  take, Run, ok, asleep, ◌>>=◌, ◌==◌, leb, if◌then◌else◌,
}
use soproyecto.Proc.Defs.{Kernel, myproc, deref}
use soproyecto.Fs.{Fs, with_kernel}
use soproyecto.Fs.Inodes.{iget, idup, ilock, iunlock}
use soproyecto.Fs.Content.{t_dir, iput, iunlockput}
use soproyecto.Fs.Directory.{Env, dirsiz, dirlookup}

abbrev pub slash : ℕ
slash = b'/'

-- `while(*path == '/') path++;`
unfoldable pub skip_slashes : List ℕ → List ℕ
skip_slashes [] = []
skip_slashes (c ∷ path) = if c == slash then skip_slashes path else c ∷ path

-- `while(*path != '/' && *path != 0) path++;`
unfoldable pub skip_name : List ℕ → List ℕ
skip_name [] = []
skip_name (c ∷ path) = if c == slash then c ∷ path else skip_name path

-- The element at the start of `s`, and the path after it.
abbrev pub element : List ℕ → Option (List ℕ × List ℕ)
element [] = none
element (c ∷ s) =
    let rest = skip_name (c ∷ s) in
    let len = length (c ∷ s) - length rest in
    some (if leb dirsiz len then take dirsiz (c ∷ s) else take len (c ∷ s), skip_slashes rest)

-- The name and the path after it, or `none` for 0.
unfoldable pub skipelem : List ℕ → Option (List ℕ × List ℕ)
skipelem path = element (skip_slashes path)

module _ (env : Env) where
  -- The inode that namex starts from.
  abbrev pub start_at : List ℕ → Fs → Run (ℕ × Fs)
  start_at [] w = do (p, k) ← myproc w.kernel; r ← deref p k; idup r.cwd (with_kernel k w)
  start_at (c ∷ path) w =
      if c == slash
      then iget 1 1 w
      else do (p, k) ← myproc w.kernel; r ← deref p k; idup r.cwd (with_kernel k w)

  abbrev pub put_back : (ip : ℕ) → Fs → Run Fs
  put_back = iunlockput env.sb env.fuel env.icache env.swtch env.fuel

  -- After the loop: the inode, unless its parent was wanted.
  abbrev pub path_end : (parent : Bool) (ip : ℕ) → List ℕ → Fs → Run (Option (ℕ × List ℕ) × Fs)
  path_end false ip name w = ok (some (ip, name), w)
  path_end true ip name w = do
    w ← iput env.sb env.fuel env.icache env.swtch env.fuel ip w
    ok (none, w)

  -- What follows dirlookup: the walk goes on at the inode that was found.
  abbrev pub step_to :
      (ip : ℕ)
      → (ℕ → Fs → Run (Option (ℕ × List ℕ) × Fs))
      → Option (ℕ × ℕ)
      → Fs
      → Run (Option (ℕ × List ℕ) × Fs)
  step_to ip rest none w = do w ← put_back ip w; ok (none, w)
  step_to ip rest (some (off, next)) w = do w ← put_back ip w; rest next w

  abbrev pub is_end : List ℕ → Bool
  is_end [] = true
  is_end (c ∷ path) = false

  -- One round of the loop, for the element `name` before `path`.
  unfoldable pub enter :
      (parent : Bool) (ip : ℕ) (name path : List ℕ)
      → (ℕ → Fs → Run (Option (ℕ × List ℕ) × Fs))
      → Fs
      → Run (Option (ℕ × List ℕ) × Fs)
  enter parent ip name path rest w = do
    w ← ilock env.sb env.icache env.swtch env.fuel ip w
    if not ((w.inodes ip).type == t_dir)
        then (do w ← put_back ip w; ok (none, w))
        else if parent && is_end path
        then (do w ← iunlock env.icache ip w; ok (some (ip, name), w))
        else do (found, w) ← dirlookup env ip name w; step_to ip rest found w

  -- The loop of namex, with fuel; `name` is the last element.
  unfoldable pub namex_from :
      (rounds : ℕ) (parent : Bool) (ip : ℕ) (name path : List ℕ)
      → Fs
      → Run (Option (ℕ × List ℕ) × Fs)
  namex_from zero parent ip name path w = asleep
  namex_from (suc n) parent ip name path w = elim (skipelem path) [
    | none ↦ path_end parent ip name w
    | some (name', path') ↦
        enter parent ip name' path' (λ next w. namex_from n parent next name' path' w) w
  ]

  unfoldable pub namex : (parent : Bool) (path : List ℕ) → Fs → Run (Option (ℕ × List ℕ) × Fs)
  namex parent path w = do (ip, w) ← start_at path w; namex_from env.fuel parent ip [] path w

  unfoldable pub namei : (path : List ℕ) → Fs → Run (Option (ℕ × List ℕ) × Fs)
  namei = namex false

  unfoldable pub nameiparent : (path : List ℕ) → Fs → Run (Option (ℕ × List ℕ) × Fs)
  nameiparent = namex true
