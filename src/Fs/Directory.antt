-- ===== src/Fs/Directory.antt =====
-- Directories of fs.c. A name is its bytes before the NUL.
use soproyecto.Common.{
  ℕ, zero, suc, ◌+◌, ◌-◌, ◌*◌, Bool, true, false, not, Option, none, some, List, [], ◌++◌, length,
  drop, get_elem?, Run, ok, stop, asleep, ◌>>=◌, panic_dirlookup, panic_dirlookup_read,
  panic_dirlink_read, panic_dirlink, ◌==◌, ltb, if◌then◌else◌,
}
use soproyecto.Proc.Defs.{Kernel}
use soproyecto.CString.Compare.{strncmp}
use soproyecto.CString.Fill.{strncpy}
use soproyecto.Fs.{Superblock, Fs}
use soproyecto.Fs.Inodes.{short_bytes, iget}
use soproyecto.Fs.Content.{Devices, t_dir, bytes_at, readi, writei, iput}

abbrev pub dirsiz : ℕ
dirsiz = 14

-- The bytes of a name in memory, with its NUL.
abbrev pub byte_at : List ℕ → ℕ → ℕ
byte_at name i = elim (get_elem? name i) [ none ↦ 0 | some c ↦ c ]

-- `strncmp(s, t, DIRSIZ)`, with `t` at the address 16.
unfoldable pub namecmp : (s t : List ℕ) → ℕ
namecmp s t = strncmp (λ a. if ltb a 16 then byte_at s a else byte_at t (a - 16)) 0 16 dirsiz

-- de.inum and de.name of the bytes of a struct dirent
abbrev pub dirent_inum : List ℕ → ℕ
dirent_inum de = byte_at de 0 + 256 * byte_at de 1

-- `strncpy(de.name, name, DIRSIZ); de.inum = inum;`
abbrev pub dirent_bytes : (name : List ℕ) (inum : ℕ) → List ℕ
dirent_bytes name inum =
    short_bytes inum ++ bytes_at (strncpy 100 0 dirsiz (byte_at name)) 100 dirsiz

-- The environment of the calls on files: the super block, the devices, the address of the cache of
-- inodes, the switch of a sleep, and fuel.
pub record Env : Type 0 where
  pub sb : Superblock
  pub devsw : Devices
  pub icache : ℕ
  pub swtch : Kernel → Kernel
  pub fuel : ℕ

module _ (env : Env) where
  -- `readi(dp, (char*)&de, off, sizeof(de))`
  abbrev pub read_dirent : (dp off : ℕ) → Fs → Run (Option (List ℕ) × Fs)
  read_dirent dp off w = readi env.sb env.fuel env.devsw env.fuel dp off 16 w

  -- `sizeof(de)` bytes have been read.
  abbrev pub is_whole : Option (List ℕ) → Bool
  is_whole none = false
  is_whole (some de) = length de == 16

  abbrev pub entry : Option (List ℕ) → List ℕ
  entry none = []
  entry (some de) = de

  -- The loop of dirlookup, with fuel: the offset of the entry and the inode, or `none` for 0.
  unfoldable pub lookup_from : (rounds dp off : ℕ) → List ℕ → Fs → Run (Option (ℕ × ℕ) × Fs)
  lookup_from zero dp off name w = asleep
  lookup_from (suc n) dp off name w =
      let round = (do
        (de, w) ← read_dirent dp off w
        let inum = dirent_inum (entry de)
        let rest = lookup_from n dp (off + 16) name w
        let got = (do (ip, w) ← iget (w.inodes dp).dev inum w; ok (some (off, ip), w))
        if not (is_whole de)
            then stop panic_dirlookup_read
            else if inum == 0
            then rest
            else if namecmp name (drop 2 (entry de)) == 0
            then got
            else rest) in
      if ltb off (w.inodes dp).size then round else ok (none, w)

  unfoldable pub dirlookup : (dp : ℕ) → List ℕ → Fs → Run (Option (ℕ × ℕ) × Fs)
  dirlookup dp name w =
      if (w.inodes dp).type == t_dir then lookup_from env.fuel dp 0 name w else stop panic_dirlookup

  -- The loop of dirlink: the offset of the first free entry, or the end of the directory.
  unfoldable pub free_from : (rounds dp off : ℕ) → Fs → Run (ℕ × Fs)
  free_from zero dp off w = asleep
  free_from (suc n) dp off w =
      let round = (do
        (de, w) ← read_dirent dp off w
        let rest = free_from n dp (off + 16) w
        if not (is_whole de)
            then stop panic_dirlink_read
            else if dirent_inum (entry de) == 0
            then ok (off, w)
            else rest) in
      if ltb off (w.inodes dp).size then round else ok (off, w)

  -- The 16 bytes are written.
  abbrev pub is_written : Option ℕ → Bool
  is_written none = false
  is_written (some n) = n == 16

  unfoldable pub add_dirent : (dp : ℕ) → List ℕ → (inum : ℕ) → Fs → Run (Bool × Fs)
  add_dirent dp name inum w = do
    (off, w) ← free_from env.fuel dp 0 w
    (r, w) ← writei env.sb env.fuel env.devsw env.fuel dp off (dirent_bytes name inum) w
    if is_written r then ok (true, w) else stop panic_dirlink

  -- What follows the lookup: the name must be new.
  abbrev pub link_new : (dp : ℕ) → List ℕ → (inum : ℕ) → Option (ℕ × ℕ) → Fs → Run (Bool × Fs)
  link_new dp name inum none w = add_dirent dp name inum w
  link_new dp name inum (some (off, ip)) w = do
    w ← iput env.sb env.fuel env.icache env.swtch env.fuel ip w
    ok (false, w)

  -- The result 0 is `true` and -1 is `false`.
  unfoldable pub dirlink : (dp : ℕ) → List ℕ → (inum : ℕ) → Fs → Run (Bool × Fs)
  dirlink dp name inum w = do (found, w) ← dirlookup dp name w; link_new dp name inum found w
