-- ===== src/Msg.antt =====
-- src/libdoh/src/upstream/msg.rs: the DNS messages that the resolver modules decode and encode.
-- This file has the types; the child modules have the functions and what they keep.
pub mod Header
pub mod Names
pub mod Codec
pub mod Answers
pub mod Rewrite
use doh_server.Prelude.{ℕ, Bool, List}
use doh_server.Bytes.{Bytes}
use doh_server.RrType.{RrType}

pub data MsgError : Type 0 where
  short_packet invalid_name compression_loop invalid_label_length : MsgError
  invalid_record trailing_bytes rdata_too_long : MsgError

abbrev pub dns_header_size : ℕ
dns_header_size = 12

abbrev pub dns_class_in : ℕ
dns_class_in = 1

abbrev pub max_domain_name_wire_octets : ℕ
max_domain_name_wire_octets = 255

abbrev pub max_compression_pointers : ℕ
max_compression_pointers = 128

pub record MsgHeader : Type 0 where
  pub id : ℕ
  pub response : Bool
  pub opcode : ℕ
  pub authoritative : Bool
  pub truncated : Bool
  pub recursion_desired : Bool
  pub recursion_available : Bool
  pub zero : Bool
  pub authenticated_data : Bool
  pub checking_disabled : Bool
  pub rcode : ℕ

-- The labels of a domain name, without the root.
pub record Name : Type 0 where
  pub labels : List Bytes

pub record Question : Type 0 where
  pub name : Name
  pub qtype : RrType
  pub qclass : ℕ

pub record ResourceRecord : Type 0 where
  pub name : Name
  pub rr_type : RrType
  pub rr_class : ℕ
  pub ttl : ℕ
  pub rdata : Bytes

pub record Msg : Type 0 where
  pub header : MsgHeader
  pub compress : Bool
  pub questions : List Question
  pub answers : List ResourceRecord
  pub authorities : List ResourceRecord
  pub additionals : List ResourceRecord
