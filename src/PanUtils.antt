-- ===== src/PanUtils.antt =====
-- lib/pan_utils/include/pan_utils/pan_utils.h: what a PAN request and its response hold.
use uwb_core.Common.{ℕ, ◌+◌, ◌*◌, ◌/◌, ◌%◌}

-- `struct pan_image_version`
pub record Version : Type 0 where
  pub iv_major : ℕ
  pub iv_minor : ℕ
  pub iv_revision : ℕ
  pub iv_build_num : ℕ

abbrev pub no_version : Version
no_version = record { iv_major = 0; iv_minor = 0; iv_revision = 0; iv_build_num = 0 }

-- `struct pan_req_resp`: its union is four 16-bit words, which the response names.
pub record ReqResp : Type 0 where
  pub role : ℕ
  pub lease_time : ℕ
  pub pan_id : ℕ
  pub short_address : ℕ
  pub slot_id : ℕ
  pub padding : ℕ

-- The union read as `fw_ver`, little endian.
unfoldable pub fw_ver : ReqResp → Version
fw_ver r = record {
  iv_major = r.pan_id % 256;
  iv_minor = r.pan_id / 256;
  iv_revision = r.short_address;
  iv_build_num = r.slot_id + 65536 * r.padding;
}
