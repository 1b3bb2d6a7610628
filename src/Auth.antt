-- ===== src/Auth.antt =====
-- How a client is authenticated: by its certificate, by Kerberos or by PAM. The libraries are
-- parameters.
pub mod Certificate
pub mod Pam
pub mod Told
pub mod Kerberos
