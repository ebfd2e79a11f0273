-- ===== src/Tests.antt =====
-- Runs of the model at concrete packets, and the theorems at inputs that meet their hypotheses.
mod Packets
mod Witnesses
mod Services
mod Lookup
mod Exchanges
mod Json
mod Http
mod Doh
mod Start
use doh_server.Bytes.{byte, u16, u32, set_u16}
use doh_server.Dns.{
  rcode, is_recoverable_error, is_truncated, arcount_inc, skip_loop, skip_name, visit_rr,
  traverse_rrs, visit_rr_mut, traverse_rrs_mut, skip_question, skip_to_additional, lower_ttl,
  min_ttl,
}
use doh_server.RrType.{first_arm, from_u16, to_u16}
use doh_server.Msg.Header.{or_bit, or_nibble, from_wire as header_from_wire, to_wire_bits}
use doh_server.Msg.Names.{name_loop, from_wire, skip_wire_loop, skip_wire, pack_labels, pack_into}
use doh_server.Msg.Codec.{
  unpack_question, unpack_questions, unpack_rr, unpack_rr_section, unpack_sections, unpack,
  pack_question, pack_questions, pack_rr, pack_rrs, header_bytes, pack,
}
use doh_server.Msg.Answers.{
  same_bytes, holding, ips_of, answer_ips, any_ip, contains_answer_ip, rewrite_rrs,
  rewrite_answer_ips,
}
use doh_server.Msg.Rewrite.{
  overwrite, put_ip, skip_questions, rewrite_answer, rewrite_answers, skip_rr, skip_rrs,
  rewrite_sections, rewrite_answer_ips_in_packet, validate_packet, extract_answer_ips,
  contains_answer_ip_in_packet, qtype_from_packet,
}
use doh_server.Edns.{
  opt_rr, add_edns_section, set_payload, set_edns_max_payload_size, first_boundary, padded_len,
  find_opt, opt_or_new, padding_option, pad, add_edns_padding,
}

-- What a test computes with.
program : Unit {0}
unfolding byte u16 u32 set_u16 rcode is_recoverable_error is_truncated arcount_inc skip_loop
    skip_name visit_rr traverse_rrs visit_rr_mut traverse_rrs_mut skip_question skip_to_additional
    lower_ttl min_ttl opt_rr add_edns_section set_payload set_edns_max_payload_size first_boundary
    padded_len find_opt opt_or_new padding_option pad add_edns_padding first_arm from_u16 to_u16
    or_bit or_nibble header_from_wire to_wire_bits name_loop from_wire skip_wire_loop skip_wire
    pack_labels pack_into unpack_question unpack_questions unpack_rr unpack_rr_section
    unpack_sections unpack pack_question pack_questions pack_rr pack_rrs header_bytes pack
    same_bytes holding ips_of answer_ips any_ip contains_answer_ip rewrite_rrs rewrite_answer_ips
    overwrite put_ip skip_questions rewrite_answer rewrite_answers skip_rr skip_rrs rewrite_sections
    rewrite_answer_ips_in_packet validate_packet extract_answer_ips contains_answer_ip_in_packet
    qtype_from_packet
program = tt
