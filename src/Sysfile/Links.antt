-- ===== src/Sysfile/Links.antt =====
-- The system calls of sysfile.c on directories: link, unlink, mkdir, mknod and chdir. A path is read
-- from user memory up to its NUL; a call gives the pattern of its int.
use soproyecto.Common.{
  ℕ, zero, suc, ◌+◌, ◌-◌, ◌%◌, ◌^◌, Bool, true, false, not, ◌&&◌, ◌||◌, Option, none, some, List,
  [], ◌∷◌, replicate, Run, ok, stop, asleep, ◌>>=◌, panic_isdirempty, panic_unlink,
  panic_unlink_writei, panic_create_dots, panic_create, ◌==◌, ltb, leb, if◌then◌else◌,
}
use mathlib.Core.Option
use soproyecto.Proc.Defs.{myproc, deref, assign}
use soproyecto.Log.{begin_op, end_op}
use soproyecto.Syscall.{argint, argstr}
use soproyecto.Syscall.Processes.{minus_one}
use soproyecto.Fs.{Inode, Fs, with_kernel}
use soproyecto.Fs.Inodes.{with_inode, iupdate, ilock, iunlock, ialloc}
use soproyecto.Fs.Content.{t_dir, t_dev, bytes_at, writei, iput}
use soproyecto.Fs.Directory.{
  Env, namecmp, dirent_inum, read_dirent, is_whole, entry, dirlookup, is_written, dirlink,
}
use soproyecto.Fs.Path.{namei, nameiparent, put_back}

-- T_FILE
abbrev pub t_file : ℕ
t_file = 2

abbrev pub dot : List ℕ
dot = b'.' ∷ []

abbrev pub dot_dot : List ℕ
dot_dot = b'.' ∷ b'.' ∷ []

-- `ip->nlink++` and `ip->nlink--`, of a short
abbrev pub more_links : Inode → Inode
more_links n = record n { nlink = (n.nlink + 1) % 2 ^ 16 }

abbrev pub less_links : Inode → Inode
less_links n = record n { nlink = (n.nlink + 2 ^ 16 - 1) % 2 ^ 16 }

-- `ip->nlink < 1`
abbrev pub has_no_link : Inode → Bool
has_no_link n = (n.nlink == 0) || leb (2 ^ 15) n.nlink

-- argstr, and the string.
abbrev pub path_arg : (ℕ → ℕ) → (n : ℕ) → Fs → Run (Option (List ℕ) × Fs)
path_arg user n w = do
  (s, k) ← argstr user n w.kernel
  ok (Option.map (λ (a, len). bytes_at user a len) s, with_kernel k w)

module _ (env : Env) where
  abbrev pub begin : Fs → Run Fs
  begin w = do k ← begin_op env.swtch env.fuel w.kernel; ok (with_kernel k w)

  -- `end_op(); return v;`
  abbrev pub end_with : (v : ℕ) → Fs → Run (ℕ × Fs)
  end_with v w = do k ← end_op w.kernel; ok (v, with_kernel k w)

  abbrev pub lock_inode : (ip : ℕ) → Fs → Run Fs
  lock_inode ip w = ilock env.sb env.icache env.swtch env.fuel ip w

  -- The inode is changed, and then written to the disk.
  abbrev pub save : (ip : ℕ) → (Inode → Inode) → Fs → Run Fs
  save ip f w = iupdate env.sb ip (with_inode ip (f (w.inodes ip)) w)

  -- `bad:` of sys_link
  unfoldable pub link_bad : (ip : ℕ) → Fs → Run (ℕ × Fs)
  link_bad ip w = do
    w ← lock_inode ip w
    w ← save ip less_links w
    w ← put_back env ip w
    end_with minus_one w

  -- sys_link from the directory of the new path on.
  unfoldable pub link_in : (ip : ℕ) → Option (ℕ × List ℕ) → Fs → Run (ℕ × Fs)
  link_in ip none w = link_bad ip w
  link_in ip (some (dp, name)) w = do
    w ← lock_inode dp w
    let other = (do w ← put_back env dp w; link_bad ip w)
    if not ((w.inodes dp).dev == (w.inodes ip).dev) then other else do
      (done, w) ← dirlink env dp name (w.inodes ip).inum w
      w ← put_back env dp w
      if not done
          then link_bad ip w
          else do w ← iput env.sb env.fuel env.icache env.swtch env.fuel ip w; end_with 0 w

  -- sys_link from the inode of the old path on.
  unfoldable pub link_inode : (new : List ℕ) → Option (ℕ × List ℕ) → Fs → Run (ℕ × Fs)
  link_inode new none w = end_with minus_one w
  link_inode new (some (ip, _)) w = do
    w ← lock_inode ip w
    if (w.inodes ip).type == t_dir then (do w ← put_back env ip w; end_with minus_one w) else do
      w ← save ip more_links w
      w ← iunlock env.icache ip w
      (dp, w) ← nameiparent env new w
      link_in ip dp w

  abbrev pub link_paths : (old new : Option (List ℕ)) → Fs → Run (ℕ × Fs)
  link_paths (some old) (some new) w = do
    w ← begin w
    (ip, w) ← namei env old w
    link_inode new ip w
  link_paths (some old) none w = ok (minus_one, w)
  link_paths none new w = ok (minus_one, w)

  -- The second argument is fetched only if the first one is a string.
  abbrev pub link_old : (ℕ → ℕ) → Option (List ℕ) → Fs → Run (ℕ × Fs)
  link_old user none w = ok (minus_one, w)
  link_old user (some old) w = do (new, w) ← path_arg user 1 w; link_paths (some old) new w

  unfoldable pub sys_link : (ℕ → ℕ) → Fs → Run (ℕ × Fs)
  sys_link user w = do (old, w) ← path_arg user 0 w; link_old user old w

  -- The loop of isdirempty, with fuel.
  unfoldable pub empty_from : (rounds dp off : ℕ) → Fs → Run (Bool × Fs)
  empty_from zero dp off w = asleep
  empty_from (suc n) dp off w =
      let round = (do
        (de, w) ← read_dirent env dp off w
        let rest = empty_from n dp (off + 16) w
        if not (is_whole env de)
            then stop panic_isdirempty
            else if dirent_inum (entry env de) == 0
            then rest
            else ok (false, w)) in
      if ltb off (w.inodes dp).size then round else ok (true, w)

  unfoldable pub isdirempty : (dp : ℕ) → Fs → Run (Bool × Fs)
  isdirempty dp w = empty_from env.fuel dp 32 w

  -- `bad:` of sys_unlink
  unfoldable pub unlink_bad : (dp : ℕ) → Fs → Run (ℕ × Fs)
  unlink_bad dp w = do w ← put_back env dp w; end_with minus_one w

  -- sys_unlink after its tests: the entry at `off` is cleared.
  unfoldable pub unlink_entry : (dp off ip : ℕ) → Fs → Run (ℕ × Fs)
  unlink_entry dp off ip w = do
    (r, w) ← writei env.sb env.fuel env.devsw env.fuel dp off (replicate 16 0) w
    if not (is_written env r) then stop panic_unlink_writei else do
      w ← if (w.inodes ip).type == t_dir then save dp less_links w else ok w
      w ← put_back env dp w
      w ← save ip less_links w
      w ← put_back env ip w
      end_with 0 w

  -- `ip->type == T_DIR && !isdirempty(ip)`
  abbrev pub is_occupied : (ip : ℕ) → Fs → Run (Bool × Fs)
  is_occupied ip w =
      if (w.inodes ip).type == t_dir
      then (do (empty, w) ← isdirempty ip w; ok (not empty, w))
      else ok (false, w)

  abbrev pub unlink_found : (dp : ℕ) → Option (ℕ × ℕ) → Fs → Run (ℕ × Fs)
  unlink_found dp none w = unlink_bad dp w
  unlink_found dp (some (off, ip)) w = do
    w ← lock_inode ip w
    if has_no_link (w.inodes ip) then stop panic_unlink else do
      (full, w) ← is_occupied ip w
      if full then (do w ← put_back env ip w; unlink_bad dp w) else unlink_entry dp off ip w

  unfoldable pub unlink_in : Option (ℕ × List ℕ) → Fs → Run (ℕ × Fs)
  unlink_in none w = end_with minus_one w
  unlink_in (some (dp, name)) w = do
    w ← lock_inode dp w
    if (namecmp name dot == 0) || (namecmp name dot_dot == 0)
        then unlink_bad dp w
        else do (found, w) ← dirlookup env dp name w; unlink_found dp found w

  abbrev pub unlink_path : Option (List ℕ) → Fs → Run (ℕ × Fs)
  unlink_path none w = ok (minus_one, w)
  unlink_path (some path) w = do w ← begin w; (dp, w) ← nameiparent env path w; unlink_in dp w

  unfoldable pub sys_unlink : (ℕ → ℕ) → Fs → Run (ℕ × Fs)
  sys_unlink user w = do (path, w) ← path_arg user 0 w; unlink_path path w

  -- The entries "." and ".." of a new directory.
  unfoldable pub make_dots : (dp ip : ℕ) → Fs → Run Fs
  make_dots dp ip w = do
    w ← save dp more_links w
    (done, w) ← dirlink env ip dot (w.inodes ip).inum w
    if not done then stop panic_create_dots else do
      (done, w) ← dirlink env ip dot_dot (w.inodes dp).inum w
      if done then ok w else stop panic_create_dots

  -- create after the lookup of the name. ialloc gives an inode or panics.
  unfoldable pub create_in :
      (type major minor dp : ℕ) (name : List ℕ) → Option (ℕ × ℕ) → Fs → Run (Option ℕ × Fs)
  create_in type major minor dp name (some (off, ip)) w = do
    w ← put_back env dp w
    w ← lock_inode ip w
    if (type == t_file) && ((w.inodes ip).type == t_file)
        then ok (some ip, w)
        else do w ← put_back env ip w; ok (none, w)
  create_in type major minor dp name none w = do
    (ip, w) ← ialloc env.sb (w.inodes dp).dev type w
    w ← lock_inode ip w
    w ← save ip (λ n. record n { major = major; minor = minor; nlink = 1 }) w
    w ← if type == t_dir then make_dots dp ip w else ok w
    (done, w) ← dirlink env dp name (w.inodes ip).inum w
    if not done then stop panic_create else do w ← put_back env dp w; ok (some ip, w)

  abbrev pub create_at : (type major minor : ℕ) → Option (ℕ × List ℕ) → Fs → Run (Option ℕ × Fs)
  create_at type major minor none w = ok (none, w)
  create_at type major minor (some (dp, name)) w = do
    w ← lock_inode dp w
    (found, w) ← dirlookup env dp name w
    create_in type major minor dp name found w

  -- The inode, locked, or `none` for 0.
  unfoldable pub create : (path : List ℕ) (type major minor : ℕ) → Fs → Run (Option ℕ × Fs)
  create path type major minor w = do
    (dp, w) ← nameiparent env path w
    create_at type major minor dp w

  -- The end of mkdir and mknod.
  abbrev pub made : Option ℕ → Fs → Run (ℕ × Fs)
  made none w = end_with minus_one w
  made (some ip) w = do w ← put_back env ip w; end_with 0 w

  abbrev pub mkdir_path : Option (List ℕ) → Fs → Run (ℕ × Fs)
  mkdir_path none w = end_with minus_one w
  mkdir_path (some path) w = do (ip, w) ← create path t_dir 0 0 w; made ip w

  unfoldable pub sys_mkdir : (ℕ → ℕ) → Fs → Run (ℕ × Fs)
  sys_mkdir user w = do w ← begin w; (path, w) ← path_arg user 0 w; mkdir_path path w

  -- The numbers of the device go to create as shorts.
  abbrev pub mknod_minor : (path : List ℕ) (major : ℕ) → Option ℕ → Fs → Run (ℕ × Fs)
  mknod_minor path major none w = end_with minus_one w
  mknod_minor path major (some minor) w = do
    (ip, w) ← create path t_dev (major % 2 ^ 16) (minor % 2 ^ 16) w
    made ip w

  abbrev pub mknod_major : (ℕ → ℕ) → (path : List ℕ) → Option ℕ → Fs → Run (ℕ × Fs)
  mknod_major user path none w = end_with minus_one w
  mknod_major user path (some major) w = do
    (minor, k) ← argint user 2 w.kernel
    mknod_minor path major minor (with_kernel k w)

  abbrev pub mknod_path : (ℕ → ℕ) → Option (List ℕ) → Fs → Run (ℕ × Fs)
  mknod_path user none w = end_with minus_one w
  mknod_path user (some path) w = do
    (major, k) ← argint user 1 w.kernel
    mknod_major user path major (with_kernel k w)

  unfoldable pub sys_mknod : (ℕ → ℕ) → Fs → Run (ℕ × Fs)
  sys_mknod user w = do w ← begin w; (path, w) ← path_arg user 0 w; mknod_path user path w

  -- `curproc` goes to the inode `ip`, which gives up the old one.
  abbrev pub chdir_to : (curproc ip : ℕ) → Fs → Run (ℕ × Fs)
  chdir_to curproc ip w = do
    r ← deref curproc w.kernel
    w ← iput env.sb env.fuel env.icache env.swtch env.fuel r.cwd w
    k ← end_op w.kernel
    k ← assign curproc (λ r. record r { cwd = ip }) k
    ok (0, with_kernel k w)

  abbrev pub chdir_inode : (curproc : ℕ) → Option (ℕ × List ℕ) → Fs → Run (ℕ × Fs)
  chdir_inode curproc none w = end_with minus_one w
  chdir_inode curproc (some (ip, _)) w = do
    w ← lock_inode ip w
    if not ((w.inodes ip).type == t_dir)
        then (do w ← put_back env ip w; end_with minus_one w)
        else do w ← iunlock env.icache ip w; chdir_to curproc ip w

  abbrev pub chdir_path : (curproc : ℕ) → Option (List ℕ) → Fs → Run (ℕ × Fs)
  chdir_path curproc none w = end_with minus_one w
  chdir_path curproc (some path) w = do (ip, w) ← namei env path w; chdir_inode curproc ip w

  unfoldable pub sys_chdir : (ℕ → ℕ) → Fs → Run (ℕ × Fs)
  sys_chdir user w = do
    (curproc, k) ← myproc w.kernel
    w ← begin (with_kernel k w)
    (path, w) ← path_arg user 0 w
    chdir_path curproc path w
