-- ===== src/Common.antt =====
-- include/common.hpp: error messages, IP versions and the version string.
use simpwire.Prelude.{Text, codes}

pub record Message : Type 0 where
  pub head : Text
  pub body : Text

pub data IpVersion : Type 0 where
  any ipv4 ipv6 : IpVersion

abbrev pub g_version_string : Text
g_version_string = codes "1.0.1"

pub version : Text
version = g_version_string
