-- ===== src/Fs/Tests.antt =====
-- A file system for the tests of the modules below: the first partition of a disk, formatted with
-- 20000 sectors, with nothing open.
use jack_os.Base.{◌+◌, ◌*◌, false, [], none, some, length}
use jack_os.Fs.{Inode, SuperBlock, Partition, Fs}

abbrev super : SuperBlock
super = record {
  magic = 0x20010107;
  sec_cnt = 20000;
  inode_cnt = 4096;
  partition_lba_base = 2048;
  block_bitmap_lba = 2050;
  block_bitmap_sects = 5;
  inode_bitmap_lba = 2055;
  inode_bitmap_sects = 1;
  inode_table_lba = 2056;
  inode_table_sects = 608;
  data_start_lba = 2664;
  root_inode_no = 0;
  dir_entry_size = 24;
}

abbrev partition : Partition
partition = record {
  start_lba = 2048;
  sec_cnt = 20000;
  sb = super;
  block_bitmap = record { btmp_byte_len = 2560; bits = 50000 };
  inode_bitmap = record { btmp_byte_len = 512; bits = 60000 };
  open_inodes = [];
}

abbrev pub no_inode : Inode
no_inode = record { i_no = 0; i_size = 0; i_open_cnt = 0; write_deny = false; i_sectors = λ k. 0 }

abbrev pub blank : Fs
blank = record {
  memory = λ a. 0;
  disk = λ a. 0;
  partition = partition;
  inodes = λ p. no_inode;
  dirs = λ p. record { inode = 0; dir_pos = 0 };
  root_dir = 400;
  file_table = λ i. record { fd_pos = 0; fd_flag = 0; fd_inode = 0 };
  fd_table = λ i. none;
  pgdir = 0;
  cwd_inode_no = 0;
  pick = λ pgdir live size. some (100000 + 4096 * length live);
  live = [];
  garbage = 7;
}
