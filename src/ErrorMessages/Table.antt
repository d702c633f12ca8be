-- ===== src/ErrorMessages/Table.antt =====
-- The table of apps/web/lib/error-messages.ts, in its order, in two parts.
use rust_auth_example.Base.{String, List, [], ◌∷◌, ◌++◌}

-- `ErrorSeverity` of apps/web/lib/severity.ts
pub data ErrorSeverity : Type 0 where
  error warning info : ErrorSeverity

-- `LocalizedAuthError`
pub record LocalizedAuthError : Type 0 where
  pub en : String
  pub es : String
  pub severity : ErrorSeverity

abbrev pub entry : (en es : String) → ErrorSeverity → LocalizedAuthError
entry en es severity = record { en = en; es = es; severity = severity }

-- The entries from `auth.invalid_credentials` to `auth.mfa_already_enabled`
abbrev pub first_messages : List (String × LocalizedAuthError)
first_messages =
    (
      "auth.invalid_credentials",
      entry "Incorrect email or password." "Correo electrónico o contraseña incorrectos." error,
    )
    ∷ (
      "auth.account_locked",
      entry "Account temporarily locked. Try again shortly."
          "Cuenta bloqueada temporalmente. Vuelve a intentarlo en unos minutos." warning,
    )
    ∷ (
      "auth.account_inactive",
      entry "This account is inactive." "Esta cuenta está inactiva." warning,
    )
    ∷ (
      "auth.account_suspended",
      entry "This account has been suspended." "Esta cuenta ha sido suspendida." warning,
    )
    ∷ (
      "auth.account_banned",
      entry "This account has been banned." "Esta cuenta ha sido bloqueada permanentemente." error,
    )
    ∷ (
      "auth.pending_approval",
      entry "Your account is awaiting approval." "Tu cuenta está pendiente de aprobación." info,
    )
    ∷ (
      "auth.token_expired",
      entry "Your session has expired — please sign in again."
          "Tu sesión ha expirado; vuelve a iniciar sesión." error,
    )
    ∷ (
      "auth.token_revoked",
      entry "Your session was revoked — please sign in again."
          "Tu sesión fue revocada; vuelve a iniciar sesión." error,
    )
    ∷ (
      "auth.token_invalid",
      entry "Your session is no longer valid — please sign in again."
          "Tu sesión ya no es válida; vuelve a iniciar sesión." error,
    )
    ∷ (
      "auth.refresh_token_invalid",
      entry "Your session could not be refreshed — please sign in again."
          "No se pudo renovar tu sesión; vuelve a iniciar sesión." error,
    )
    ∷ ("auth.session_expired", entry "Your session has expired." "Tu sesión ha expirado." error)
    ∷ (
      "auth.session_limit_reached",
      entry "You have reached the maximum number of active sessions."
          "Has alcanzado el número máximo de sesiones activas." warning,
    )
    ∷ (
      "auth.session_not_found",
      entry "That session could not be found." "No se encontró esa sesión." warning,
    )
    ∷ (
      "auth.token_missing",
      entry "You need to sign in to continue." "Debes iniciar sesión para continuar." error,
    )
    ∷ (
      "auth.email_already_exists",
      entry "An account with this email already exists."
          "Ya existe una cuenta con este correo electrónico." warning,
    )
    ∷ (
      "auth.email_not_verified",
      entry "Please verify your email address before signing in."
          "Verifica tu correo electrónico antes de iniciar sesión." warning,
    )
    ∷ (
      "auth.mfa_required",
      entry "Enter your authenticator code to continue."
          "Introduce el código de tu autenticador para continuar." info,
    )
    ∷ (
      "auth.mfa_invalid_code",
      entry "That authenticator code is not valid. Please try again."
          "Ese código de autenticación no es válido. Inténtalo de nuevo." error,
    )
    ∷ (
      "auth.mfa_already_enabled",
      entry "Two-factor authentication is already enabled."
          "La verificación en dos pasos ya está activada." info,
    )
    ∷ []

-- The entries from `auth.mfa_not_enabled` to `auth.internal`
abbrev pub last_messages : List (String × LocalizedAuthError)
last_messages =
    (
      "auth.mfa_not_enabled",
      entry "Two-factor authentication is not enabled on this account."
          "La verificación en dos pasos no está activada en esta cuenta." info,
    )
    ∷ (
      "auth.mfa_setup_required",
      entry "Set up two-factor authentication to continue."
          "Configura la verificación en dos pasos para continuar." info,
    )
    ∷ (
      "auth.mfa_temp_token_invalid",
      entry "Your verification session expired — please sign in again."
          "Tu sesión de verificación expiró; vuelve a iniciar sesión." error,
    )
    ∷ (
      "auth.recovery_code_invalid",
      entry "That recovery code is not valid." "Ese código de recuperación no es válido." error,
    )
    ∷ (
      "auth.password_too_weak",
      entry "Choose a stronger password." "Elige una contraseña más segura." warning,
    )
    ∷ (
      "auth.password_reset_token_invalid",
      entry "This reset link is invalid. Request a new one."
          "Este enlace de restablecimiento no es válido. Solicita uno nuevo." error,
    )
    ∷ (
      "auth.password_reset_token_expired",
      entry "This reset link has expired. Request a new one."
          "Este enlace de restablecimiento ha expirado. Solicita uno nuevo." warning,
    )
    ∷ ("auth.otp_invalid", entry "That code is not valid." "Ese código no es válido." error)
    ∷ (
      "auth.otp_expired",
      entry "That code has expired. Request a new one."
          "Ese código ha expirado. Solicita uno nuevo." warning,
    )
    ∷ (
      "auth.otp_max_attempts",
      entry "Too many attempts. Please request a new code."
          "Demasiados intentos. Solicita un código nuevo." warning,
    )
    ∷ (
      "auth.insufficient_role",
      entry "You do not have permission to do that." "No tienes permiso para hacer eso." error,
    )
    ∷ ("auth.forbidden", entry "Access denied." "Acceso denegado." error)
    ∷ (
      "auth.invalid_invitation_token",
      entry "This invitation is invalid or has already been used."
          "Esta invitación no es válida o ya ha sido utilizada." error,
    )
    ∷ (
      "auth.oauth_failed",
      entry "Sign-in with the provider failed. Please try again."
          "El inicio de sesión con el proveedor falló. Inténtalo de nuevo." error,
    )
    ∷ (
      "auth.oauth_email_mismatch",
      entry "The provider email does not match this account."
          "El correo del proveedor no coincide con esta cuenta." error,
    )
    ∷ (
      "auth.platform_auth_required",
      entry "Platform administrator sign-in is required."
          "Se requiere el inicio de sesión de administrador de plataforma." error,
    )
    ∷ (
      "auth.validation",
      entry "Please check the highlighted fields and try again."
          "Revisa los campos indicados e inténtalo de nuevo." warning,
    )
    ∷ (
      "auth.too_many_requests",
      entry "Too many attempts — please wait a moment." "Demasiados intentos; espera un momento."
          warning,
    )
    ∷ (
      "auth.internal",
      entry "Something went wrong on our side. Please try again."
          "Algo salió mal de nuestro lado. Inténtalo de nuevo." error,
    )
    ∷ []

-- `AUTH_ERROR_MESSAGES`
abbrev pub auth_error_messages : List (String × LocalizedAuthError)
auth_error_messages = first_messages ++ last_messages
