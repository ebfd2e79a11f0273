-- ===== src/RrType.antt =====
-- src/libdoh/src/upstream/rr_types.rs: the record types and their codes.
use doh_server.Prelude.{
  ℕ, ◌≡◌, refl, ap, ◌∙◌, Bool, true, ◌&&◌, List, [], ◌∷◌, ◌==◌, if◌then◌else◌, arith,
}

pub data RrType : Type 0 where
  none a ns md mf cname soa mb mg mr null ptr hinfo minfo mx txt rp afsdb x25 isdn rt : RrType
  nsapptr sig key px gpos aaaa loc nxt eid nimloc srv atma naptr kx cert dname opt apl ds : RrType
  sshfp ipseckey rrsig nsec dnskey dhcid nsec3 nsec3param tlsa smimea hip ninfo rkey : RrType
  talink cds cdnskey openpgpkey csync zonemd svcb https spf uinfo uid gid unspec nid l32 : RrType
  l64 lp eui48 eui64 nxname uri caa avc amtrelay resinfo tkey tsig ixfr axfr mailb maila : RrType
  any ta dlv reserved : RrType
  unknown : ℕ → RrType

-- The arms of `from_u16`.
abbrev pub codes : List (ℕ × RrType)
codes =
    (0, none)
    ∷ (1, a)
    ∷ (2, ns)
    ∷ (3, md)
    ∷ (4, mf)
    ∷ (5, cname)
    ∷ (6, soa)
    ∷ (7, mb)
    ∷ (8, mg)
    ∷ (9, mr)
    ∷ (10, null)
    ∷ (12, ptr)
    ∷ (13, hinfo)
    ∷ (14, minfo)
    ∷ (15, mx)
    ∷ (16, txt)
    ∷ (17, rp)
    ∷ (18, afsdb)
    ∷ (19, x25)
    ∷ (20, isdn)
    ∷ (21, rt)
    ∷ (23, nsapptr)
    ∷ (24, sig)
    ∷ (25, key)
    ∷ (26, px)
    ∷ (27, gpos)
    ∷ (28, aaaa)
    ∷ (29, loc)
    ∷ (30, nxt)
    ∷ (31, eid)
    ∷ (32, nimloc)
    ∷ (33, srv)
    ∷ (34, atma)
    ∷ (35, naptr)
    ∷ (36, kx)
    ∷ (37, cert)
    ∷ (39, dname)
    ∷ (41, opt)
    ∷ (42, apl)
    ∷ (43, ds)
    ∷ (44, sshfp)
    ∷ (45, ipseckey)
    ∷ (46, rrsig)
    ∷ (47, nsec)
    ∷ (48, dnskey)
    ∷ (49, dhcid)
    ∷ (50, nsec3)
    ∷ (51, nsec3param)
    ∷ (52, tlsa)
    ∷ (53, smimea)
    ∷ (55, hip)
    ∷ (56, ninfo)
    ∷ (57, rkey)
    ∷ (58, talink)
    ∷ (59, cds)
    ∷ (60, cdnskey)
    ∷ (61, openpgpkey)
    ∷ (62, csync)
    ∷ (63, zonemd)
    ∷ (64, svcb)
    ∷ (65, https)
    ∷ (99, spf)
    ∷ (100, uinfo)
    ∷ (101, uid)
    ∷ (102, gid)
    ∷ (103, unspec)
    ∷ (104, nid)
    ∷ (105, l32)
    ∷ (106, l64)
    ∷ (107, lp)
    ∷ (108, eui48)
    ∷ (109, eui64)
    ∷ (128, nxname)
    ∷ (249, tkey)
    ∷ (250, tsig)
    ∷ (251, ixfr)
    ∷ (252, axfr)
    ∷ (253, mailb)
    ∷ (254, maila)
    ∷ (255, any)
    ∷ (256, uri)
    ∷ (257, caa)
    ∷ (258, avc)
    ∷ (260, amtrelay)
    ∷ (261, resinfo)
    ∷ (32768, ta)
    ∷ (32769, dlv)
    ∷ (65535, reserved)
    ∷ []

-- The type at a code, or `unknown` behind the last arm.
unfoldable pub first_arm : List (ℕ × RrType) → ℕ → RrType
first_arm [] code = unknown code
first_arm ((k, t) ∷ arms) code = if code == k then t else first_arm arms code

unfoldable pub from_u16 : ℕ → RrType
unfolding first_arm
from_u16 = first_arm codes

unfoldable pub to_u16 : RrType → ℕ
to_u16 none = 0
to_u16 a = 1
to_u16 ns = 2
to_u16 md = 3
to_u16 mf = 4
to_u16 cname = 5
to_u16 soa = 6
to_u16 mb = 7
to_u16 mg = 8
to_u16 mr = 9
to_u16 null = 10
to_u16 ptr = 12
to_u16 hinfo = 13
to_u16 minfo = 14
to_u16 mx = 15
to_u16 txt = 16
to_u16 rp = 17
to_u16 afsdb = 18
to_u16 x25 = 19
to_u16 isdn = 20
to_u16 rt = 21
to_u16 nsapptr = 23
to_u16 sig = 24
to_u16 key = 25
to_u16 px = 26
to_u16 gpos = 27
to_u16 aaaa = 28
to_u16 loc = 29
to_u16 nxt = 30
to_u16 eid = 31
to_u16 nimloc = 32
to_u16 srv = 33
to_u16 atma = 34
to_u16 naptr = 35
to_u16 kx = 36
to_u16 cert = 37
to_u16 dname = 39
to_u16 opt = 41
to_u16 apl = 42
to_u16 ds = 43
to_u16 sshfp = 44
to_u16 ipseckey = 45
to_u16 rrsig = 46
to_u16 nsec = 47
to_u16 dnskey = 48
to_u16 dhcid = 49
to_u16 nsec3 = 50
to_u16 nsec3param = 51
to_u16 tlsa = 52
to_u16 smimea = 53
to_u16 hip = 55
to_u16 ninfo = 56
to_u16 rkey = 57
to_u16 talink = 58
to_u16 cds = 59
to_u16 cdnskey = 60
to_u16 openpgpkey = 61
to_u16 csync = 62
to_u16 zonemd = 63
to_u16 svcb = 64
to_u16 https = 65
to_u16 spf = 99
to_u16 uinfo = 100
to_u16 uid = 101
to_u16 gid = 102
to_u16 unspec = 103
to_u16 nid = 104
to_u16 l32 = 105
to_u16 l64 = 106
to_u16 lp = 107
to_u16 eui48 = 108
to_u16 eui64 = 109
to_u16 nxname = 128
to_u16 tkey = 249
to_u16 tsig = 250
to_u16 ixfr = 251
to_u16 axfr = 252
to_u16 mailb = 253
to_u16 maila = 254
to_u16 any = 255
to_u16 uri = 256
to_u16 caa = 257
to_u16 avc = 258
to_u16 amtrelay = 260
to_u16 resinfo = 261
to_u16 ta = 32768
to_u16 dlv = 32769
to_u16 reserved = 65535
to_u16 (unknown code) = code

-- A type that the decoder can give: `unknown` holds no code that has an arm.
abbrev pub IsDecoded : RrType → Type 0
IsDecoded (unknown code) = from_u16 code ≡ unknown code
IsDecoded _ = Unit

-- Each arm is undone by `to_u16`.
arms_agree : List (ℕ × RrType) → Bool
arms_agree [] = true
arms_agree ((k, t) ∷ arms) = to_u16 t == k && arms_agree arms

to_u16-first_arm :
    (arms : List (ℕ × RrType)) (code : ℕ)
    → arms_agree arms ≡ true
    → to_u16 (first_arm arms code) ≡ code
unfolding arms_agree first_arm
to_u16-first_arm [] code h = unfold to_u16 in refl
to_u16-first_arm ((k, t) ∷ arms) code h = ground (arith, to_u16-first_arm arms code)

-- Decoding a code and encoding the type again gives the code, for every code.
pub to_u16-from_u16 : (code : ℕ) → to_u16 (from_u16 code) ≡ code
unfolding from_u16 arms_agree to_u16
to_u16-from_u16 code = to_u16-first_arm codes code refl

-- Encoding a type and decoding its code gives the type, unless it is an `unknown` of a code that
-- has a type of its own.
pub from_u16-to_u16 : (t : RrType) → IsDecoded t → from_u16 (to_u16 t) ≡ t
unfolding from_u16 to_u16
from_u16-to_u16 (unknown code) h = h
from_u16-to_u16 _ h = refl

-- What `from_u16` gives is decoded.
first_arm-IsDecoded : (code : ℕ) (t : RrType) → from_u16 code ≡ t → to_u16 t ≡ code → IsDecoded t
first_arm-IsDecoded code (unknown c) h e = unfold to_u16 in (ap from_u16 e ∙ h)
first_arm-IsDecoded code _ h e = tt

pub from_u16-IsDecoded : (code : ℕ) → IsDecoded (from_u16 code)
from_u16-IsDecoded code = first_arm-IsDecoded code (from_u16 code) refl (to_u16-from_u16 code)
