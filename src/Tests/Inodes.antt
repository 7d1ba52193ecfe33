-- ===== src/Tests/Inodes.antt =====
-- The inodes, files and the free map of fs.c at concrete states.
use soproyecto.Common.{
  List, [], ◌∷◌, some, none, ℕ, ◌≡◌, refl, ok, ◌>>=◌, arith, ◌==◌, if◌then◌else◌, ltb, ◌/◌,
}
use soproyecto.Tests.Demo.{shell, shell-MayLock}
use soproyecto.Fs.{Superblock, Inode, Fs, balloc}
use soproyecto.Fs.Allocation.{Allocated, balloc-Allocated}
use soproyecto.Fs.Inodes.{iget, iupdate, load_inode, with_inode}
use soproyecto.Paging.Copy.{write_bytes}
use soproyecto.Fs.Content.{Devices, bytes_at, readi, writei}
use soproyecto.Fs.Reading.{HasBlocks, byte_of, readi_lem}
use soproyecto.Fs.Rounds.{IsSeparate}
use soproyecto.Fs.Writing.{IsWritten, writei_lem, writei-readi}
use soproyecto.Fs.References.{Got, iget-Got}
use soproyecto.Fs.Writes.{CanLog}
use soproyecto.Fs.Saved.{SameOnDisk, saved, reread, iupdate-load_inode}

abbrev no_inode : Inode
no_inode = record {
  dev = 0;
  inum = 0;
  ref = 0;
  valid = 0;
  type = 0;
  major = 0;
  minor = 0;
  nlink = 0;
  size = 0;
  addrs = λ _. 0;
}

-- A file of 700 bytes in two blocks, which is inode 9.
abbrev some_file : Inode
some_file = record {
  dev = 1;
  inum = 9;
  ref = 2;
  valid = 1;
  type = 2;
  major = 0;
  minor = 0;
  nlink = 1;
  size = 700;
  addrs = λ i. if i == 0 then 300 else if i == 1 then 70000 else 0;
}

abbrev one_file : Fs
one_file = record { kernel = shell; inodes = λ i. if i == 3 then some_file else no_inode }

abbrev disk_layout : Superblock
disk_layout = record {
  size = 1000;
  nblocks = 941;
  ninodes = 200;
  nlog = 30;
  logstart = 2;
  inodestart = 32;
  bmapstart = 58;
}

iget-Got_example : Got one_file 1 9 (iget 1 9 one_file)
iget-Got_example =
    iget-Got one_file 1 9 (shell-MayLock 73 2) (λ i j dev inum li lj hi hj. ground (arith, hi, hj))

iupdate-load_inode_example :
    ((iupdate disk_layout 3 one_file >>= load_inode disk_layout 3)
      ≡ ok (
          with_inode 3
            (record (reread disk_layout one_file 3 3) { valid = 1 })
            (saved disk_layout one_file 3)))
    × SameOnDisk some_file (reread disk_layout one_file 3 3)
    × ((reread disk_layout one_file 3 3).dev ≡ 1)
    × ((reread disk_layout one_file 3 3).inum ≡ 9)
    × ((reread disk_layout one_file 3 3).ref ≡ 2)
iupdate-load_inode_example =
    iupdate-load_inode disk_layout one_file 3 3
      (record {
        may = shell-MayLock 70 2;
        room = omega arith;
        fits = omega arith;
        begun = omega arith;
        count = omega arith;
      })
      (record {
        type = omega arith;
        major = omega arith;
        minor = omega arith;
        nlink = omega arith;
        size = omega arith;
        addrs = λ i h. ground (arith, h);
      })
      (omega arith) refl

-- The blocks below 64 are marked in the free map, its own block among them.
abbrev marked_map : Fs
marked_map = record one_file {
  kernel = record shell {
    log = record shell.log {
      store = record shell.log.store {
        cache = λ b i. if b == 58 then (if ltb i 8 then 255 else 0) else 1;
      };
    };
  };
}

balloc-Allocated_example : Allocated disk_layout marked_map (balloc disk_layout 2 marked_map)
balloc-Allocated_example =
    balloc-Allocated disk_layout marked_map 2
      (record {
        may = shell-MayLock 70 2;
        room = omega arith;
        fits = omega arith;
        begun = omega arith;
        count = omega arith;
      })
      (λ y h. let first : y / 4096 ≡ 0 = omega (arith, h) in rw first refl) (omega arith)

-- A device table without devices.
abbrev no_devices : Devices
no_devices = record { read = λ _. none; write = λ _. none }

abbrev some_bytes : List ℕ
some_bytes = 10 ∷ 20 ∷ 30 ∷ 40 ∷ []

some_file-HasBlocks : HasBlocks one_file 3
some_file-HasBlocks = record {
  bound = omega arith;
  mapped = λ bn h. ground (arith, h);
  table = λ h. absurd (omega (arith, h));
}

some_file-IsSeparate : IsSeparate one_file 3
some_file-IsSeparate = record {
  distinct = λ b c hb hc e. ground (arith, hb, hc, e);
  apart = λ b h big. absurd (omega (arith, big));
}

room_for_two : CanLog 2 one_file.kernel
room_for_two = record {
  may = shell-MayLock 70 2;
  room = omega arith;
  fits = omega arith;
  begun = omega arith;
  count = omega arith;
}

-- The bytes go to the end of the first block and the start of the second one.
writei_lem_example :
    (w' : Fs) × (writei disk_layout 2 no_devices 3 3 510 some_bytes one_file ≡ ok (some 4, w'))
    × IsWritten one_file 3 (write_bytes 510 some_bytes (byte_of one_file 3)) w'
writei_lem_example =
    writei_lem disk_layout 2 3 no_devices 2 one_file 510 some_bytes some_file-HasBlocks
      some_file-IsSeparate (omega arith) room_for_two (omega arith) (omega arith)

writei-readi_example :
    (w' : Fs) × (writei disk_layout 2 no_devices 3 3 510 some_bytes one_file ≡ ok (some 4, w'))
    × (readi disk_layout 2 no_devices 3 3 510 4 w' ≡ ok (some some_bytes, w'))
writei-readi_example =
    writei-readi disk_layout 2 3 no_devices 2 one_file 510 some_bytes some_file-HasBlocks
      some_file-IsSeparate (omega arith) room_for_two (omega arith) (omega arith)

-- 500 bytes are asked for and 200 are left.
readi_lem_example :
    readi disk_layout 2 no_devices 3 3 500 500 one_file
    ≡ ok (some (bytes_at (byte_of one_file 3) 500 200), one_file)
readi_lem_example =
    readi_lem disk_layout 2 one_file 3 some_file-HasBlocks no_devices 2 500 500 (omega arith)
      (omega arith) (omega arith) (omega arith)
