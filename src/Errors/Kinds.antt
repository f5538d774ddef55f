-- ===== src/Errors/Kinds.antt =====
-- The formats of the errors that the SDK makes itself, one constructor for each call of
-- `errors.New` or `fmt.Errorf`.
pub data Kind : Type 0 where
  -- encrypt/encryption.go
  generate_tmk generate_salt seal_tmk write_keyfile read_keyfile parse_keyfile : Kind
  unsupported_version decode_salt decode_nonce decode_ciphertext decrypt_tmk : Kind
  decode_wrapped_dek wrapped_dek_too_short unwrap_with_old_tmk unwrap_failed : Kind
  decode_hash_hex hkdf_expand ciphertext_too_short passphrase_callback passphrase_required : Kind
  -- codec/zstd.go
  zstd_decompress unsupported_compression : Kind
  -- pipeline/backup.go
  derive_tree_key decrypt_tree decompress_tree request_pack_upload_url upload_pack : Kind
  confirm_pack load_encryption_key generate_dek wrap_dek stat_path walk_path chunk_path : Kind
  derive_data_key encrypt_chunk encrypt_tree no_root_tree create_snapshot : Kind
  -- pipeline/restore.go
  no_download_url decode_tree get_snapshot no_encryption_options unwrap_dek resolve_tree : Kind
  request_download_urls decrypt_chunk decompress_chunk checksum_mismatch : Kind
  restore_incomplete mkdir_for create_file missing_chunk write_file invalid_node_name : Kind
  invalid_restore_path absolute_restore_path validate_restore_path restore_path_escapes : Kind
  -- pipeline/rotation.go
  get_snapshot_id no_wrapped_dek rewrap_snapshot update_snapshot : Kind
  -- client/client.go
  api_url_required siwe_needs_wallet email_needs_password not_authenticated no_wallet : Kind
  -- api/auth.go and api/httpclient.go
  parse_private_key request_nonce sign_message verify_siwe marshal_request_body : Kind
  read_response s3_put_failed s3_put_status s3_get_failed s3_get_status : Kind
