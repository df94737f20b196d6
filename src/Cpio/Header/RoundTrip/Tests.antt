-- ===== src/Cpio/Header/RoundTrip/Tests.antt =====
-- A newc header at concrete values.
use fsforge.Common.{◌≡◌, arith, length}
use fsforge.Cpio.Header.{Hdr, parsed, header_size, marshal, parse_header}
use fsforge.Cpio.Header.RoundTrip.{parse_header-marshal_newc}

abbrev a_file : Hdr
a_file = record {
  ino = 721;
  mode = 33188;
  uid = 1000;
  gid = 1000;
  nlink = 1;
  mtime = 1700000000;
  filesize = 4096;
  devmajor = 8;
  devminor = 1;
  rdevmajor = 0;
  rdevminor = 0;
  namesize = 11;
}

parse_header-marshal_newc_example :
    (length (marshal a_file) ≡ header_size) × (parse_header (marshal a_file) ≡ parsed a_file)
parse_header-marshal_newc_example = parse_header-marshal_newc a_file (record {
  ino_fits = omega arith;
  mode_fits = omega arith;
  uid_fits = omega arith;
  gid_fits = omega arith;
  nlink_fits = omega arith;
  mtime_fits = omega arith;
  filesize_fits = omega arith;
  devmajor_fits = omega arith;
  devminor_fits = omega arith;
  rdevmajor_fits = omega arith;
  rdevminor_fits = omega arith;
  namesize_fits = omega arith;
})
